-- ===== src/Block/Samples.antt =====
-- The metadata of three blocks, of which the last was compacted from the others.
use promlts.Prelude.Dict.{nat_eq, get}
use promlts.Prelude.Int.{pos}
use promlts.Block.Metas.{Meta, Metas, IsMap}
use promlts.Block.Duplicates.{root_meta}
use promlts.Block.Duplicates.Groups.{KeysMatch}
use promlts.Prelude.{ℕ, refl, some, List, [], ◌∷◌}

abbrev pub block : ℕ → List ℕ → Meta
block id sources = record root_meta {
  ulid = id;
  max_time = pos 100;
  sources = sources;
  labels = some ((97 ∷ [], 98 ∷ []) ∷ []);
}

abbrev pub compacted : Meta
compacted = block 3 (1 ∷ 2 ∷ [])

abbrev pub bucket : Metas
bucket = (1, block 1 (1 ∷ [])) ∷ (2, block 2 (2 ∷ [])) ∷ (3, compacted) ∷ []

pub bucket-IsMap : IsMap bucket
unfolding get
bucket-IsMap = (refl, (refl, (refl, tt)))

pub bucket-KeysMatch : KeysMatch bucket
bucket-KeysMatch = (refl, (refl, (refl, tt)))
