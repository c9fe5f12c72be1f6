-- ===== src/Receive/Handler/Backoff.antt =====
-- pkg/receive/handler.go: the backoff from a remote endpoint.
use promlts.Receive.Errors.{status, code_unavailable}
use promlts.Receive.Handler.{RetryState, Peers, World, is_backing_off, back_off, after_write}
use promlts.Prelude.Dict.{same_key_refl, get, put, remove, get-put, get-remove}
use promlts.Labelpb.{Bytes, bytes_key}
use promlts.Prelude.{
  ltb, length, ℕ, ◌+◌, ◌≡◌, refl, ap, ◌∙◌, false, Option, none, some, List, [], ◌∷◌, ◌++◌, arith,
}

module _ (endpoint : Bytes) where
  -- The endpoint answers Unavailable once in each of the worlds, which differ in their time.
  pub fail : Peers → List World → Peers
  fail p [] = p
  fail p (w ∷ ws) = fail (after_write w p endpoint (some (status code_unavailable))).0 ws

  abbrev pub state : Peers → Option RetryState
  state p = get p.states endpoint

  abbrev pub retry_at : World → ℕ → RetryState
  retry_at w n = record { attempt = n; next_allowed = w.now + w.for_attempt n }

  backed_off :
      (p : Peers) (r : RetryState) → state (record p { states = put p.states endpoint r }) ≡ some r
  backed_off p r = get-put p.states endpoint endpoint r ∙ rw (same_key_refl endpoint) refl

  fail-first :
      (w : World) (p : Peers)
      → state p ≡ none
      → state (after_write w p endpoint (some (status code_unavailable))).0 ≡ some (retry_at w 0)
  unfolding after_write back_off
  fail-first w p e = rw (e, back_off) (backed_off p (retry_at w 0))

  fail-again :
      (w : World) (p : Peers) (b : RetryState)
      → state p ≡ some b
      → state (after_write w p endpoint (some (status code_unavailable))).0
        ≡ some (retry_at w (b.attempt + 1))
  unfolding after_write back_off
  fail-again w p b e = rw (e, back_off) (backed_off p (retry_at w (b.attempt + 1)))

  fail-more :
      (p : Peers) (b : RetryState) (ws : List World) (w : World)
      → state p ≡ some b
      → state (fail p (ws ++ (w ∷ []))) ≡ some (retry_at w (b.attempt + length ws + 1))
  unfolding fail
  fail-more p b [] w e = fail-again w p b e ∙ ap (λ n. some (retry_at w n)) (omega arith)
  fail-more p b (v ∷ ws) w e =
      fail-more (after_write v p endpoint (some (status code_unavailable))).0
        (retry_at v (b.attempt + 1)) ws w (fail-again v p b e)
      ∙ ap (λ n. some (retry_at w n)) (omega arith)

  -- How many failures in a row the state counts.
  abbrev pub failures : Option RetryState → ℕ
  failures none = 0
  failures (some b) = b.attempt + 1

  fail-state :
      (p : Peers) (ws : List World) (w : World) (o : Option RetryState)
      → state p ≡ o
      → state (fail p (ws ++ (w ∷ []))) ≡ some (retry_at w (failures o + length ws))
  unfolding fail
  fail-state p [] w none e = fail-first w p e ∙ ap (λ n. some (retry_at w n)) (omega arith)
  fail-state p (v ∷ ws) w none e =
      fail-more (after_write v p endpoint (some (status code_unavailable))).0 (retry_at v 0) ws w
        (fail-first v p e)
      ∙ ap (λ n. some (retry_at w n)) (omega arith)
  fail-state p ws w (some b) e = fail-more p b ws w e ∙ ap (λ n. some (retry_at w n)) (omega arith)

  is_backing_off-state :
      (v : World) (p : Peers) (r : RetryState)
      → state p ≡ some r
      → is_backing_off v p endpoint ≡ ltb v.now r.next_allowed
  unfolding is_backing_off
  is_backing_off-state v p r e = rw (e, is_backing_off) refl

  -- An endpoint answers Unavailable a number of times in a row, the last time in `w`. Then it is backed
  -- off from exactly until the time of `w` plus the backoff for the number of failures before it: those
  -- of the row, and those that the state of the endpoint counted before the row, of which there are none
  -- if it has no state. After one success it is not backed off from any more.
  pub fail-BacksOff :
      (p : Peers) (ws : List World) (w v : World)
      → (is_backing_off v (fail p (ws ++ (w ∷ []))) endpoint
          ≡ ltb v.now (w.now + w.for_attempt (failures (state p) + length ws)))
        × (is_backing_off v (after_write w (fail p (ws ++ (w ∷ []))) endpoint none).0 endpoint
            ≡ false)
  unfolding after_write is_backing_off
  fail-BacksOff p ws w v = (
    is_backing_off-state v (fail p (ws ++ (w ∷ []))) (retry_at w (failures (state p) + length ws))
        (fail-state p ws w (state p) refl),
    recovered (fail p (ws ++ (w ∷ []))),
  )
    where
      gone : (q : Peers) → get (remove q.states endpoint) endpoint ≡ none
      gone q = get-remove q.states endpoint endpoint ∙ rw (same_key_refl endpoint) refl

      recovered :
          (q : Peers)
          → is_backing_off v (record q { states = remove q.states endpoint }) endpoint ≡ false
      recovered q = rw (gone q, is_backing_off) refl
