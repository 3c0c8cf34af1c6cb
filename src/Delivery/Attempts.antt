-- ===== src/Delivery/Attempts.antt =====
-- src/webhook/mod.rs: how often a webhook is posted, and how long its delivery waits.
use agent_execution_platform.Prelude.{
  ℕ, zero, suc, ◌+◌, ◌∙◌, ap, List, ◌∷◌, ◌++◌, replicate, ◌*◌, ◌≤◌, ◌<◌, ◌≡◌, refl, inl, inr, Bool,
  true, false, some, ◌==◌, Bool-cases, arith,
}
use mathlib.Core.Path.{subst⁻¹}
use agent_execution_platform.Prelude.Text.{Text}
use agent_execution_platform.Prelude.Results.{Result, ok, err}
use agent_execution_platform.Crates.{Hex}
use agent_execution_platform.Worker.{Webhook}
use agent_execution_platform.Delivery.{
  Post, Client, is_delivered, attempts, compute_signature, deliver,
}

replicate_behind :
    (r : Post) (n : ℕ) (l : List Post) → replicate n r ++ (r ∷ l) ≡ replicate (suc n) r ++ l
replicate_behind r zero l = refl
replicate_behind r (suc n) l = ap (λ t. r ∷ t) (replicate_behind r n l)

-- An answer of the 2xx statuses.
abbrev pub Succeeds : Result Text ℕ → Type 0
Succeeds answer = (status : ℕ) × (answer ≡ ok status) × (200 ≤ status) × (status < 300)

module _ {C : Type 0} (hex : Hex) (client : Client C) where
  delivered-Succeeds :
      (answer : Result Text ℕ) → is_delivered hex client answer ≡ true → Succeeds answer
  delivered-Succeeds (ok status) h = (status, refl, ground arith, ground arith)
  delivered-Succeeds (err e) h = absurd (ground arith)

  -- A log of the posts, the last first, and a count of the seconds slept.
  pub record IsLog (sent : C → List Post) (slept : C → ℕ) : Type 0 where
    pub post_logs : (r : Post) (c : C) → sent (client.post r c).1 ≡ r ∷ sent c
    pub post_sleeps_not : (r : Post) (c : C) → slept (client.post r c).1 ≡ slept c
    pub sleep_posts_not : (d : ℕ) (c : C) → sent (client.sleep d c) ≡ sent c
    pub sleep_counts : (d : ℕ) (c : C) → slept (client.sleep d c) ≡ slept c + d

  module _ (sent : C → List Post) (slept : C → ℕ) (log : IsLog sent slept) where
    -- What a delivery with so many attempts left has done at its end: a success was the answer to
    -- its last post, a failure took all attempts; every post was of the one request; the pauses
    -- double, and none follows the last.
    abbrev pub Tried : ℕ → ℕ → Post → C → Bool × C → Type 0
    Tried left waits request c (true, end) =
        ((n : ℕ) × (n ≤ left) × (sent end ≡ replicate n request ++ sent c))
        × (slept end ≤ slept c + waits)
        × ((c' : C) × Succeeds (client.post request c').0 × (end ≡ (client.post request c').1))
    Tried left waits request c (false, end) =
        (sent end ≡ replicate left request ++ sent c) × (slept end ≡ slept c + waits)

    last_try :
        (backoff : ℕ) (request : Post) (c : C)
        → Tried 1 0 request c (attempts hex client 1 backoff request c)
    unfolding attempts
    last_try backoff request c =
        elim (Bool-cases (is_delivered hex client (client.post request c).0)) [
          | inl success ↦
              subst⁻¹ (Tried 1 0 request c) {y = (true, (client.post request c).1)} (rw success) (
                (1, omega arith, log.post_logs request c),
                omega (arith, log.post_sleeps_not request c),
                (c, delivered-Succeeds _ success, refl),
              )
          | inr failure ↦
              subst⁻¹ (Tried 1 0 request c) {y = (false, (client.post request c).1)} (rw failure)
                (log.post_logs request c, omega (arith, log.post_sleeps_not request c))
        ]

    -- What was tried after one post and one pause.
    shift :
        (left waits backoff : ℕ) (request : Post) (c c' : C) (done : Bool × C)
        → sent c' ≡ request ∷ sent c
        → slept c' ≡ slept c + backoff
        → Tried left waits request c' done
        → Tried (suc left) (backoff + waits) request c done
    shift left waits backoff request c c' (true, end) p q ((n, most, h), k, found) =
        ((suc n, omega arith, h ∙ rw p (replicate_behind request n (sent c))), omega arith, found)
    shift left waits backoff request c c' (false, end) p q (h, k) =
        (h ∙ rw p (replicate_behind request left (sent c)), omega arith)

    one_more :
        (left waits backoff : ℕ) (request : Post) (c : C)
        → ((c' : C)
            → Tried
                (suc left)
                waits
                request
                c'
                (attempts hex client (suc left) (backoff * 2) request c'))
        → Tried
            (suc (suc left))
            (backoff + waits)
            request
            c
            (attempts hex client (suc (suc left)) backoff request c)
    unfolding attempts
    one_more left waits backoff request c go_on =
        let c' = (client.post request c).1 in
        elim (Bool-cases (is_delivered hex client (client.post request c).0)) [
          | inl success ↦
              subst⁻¹ (Tried (suc (suc left)) (backoff + waits) request c) {y = (true, c')}
                (rw success)
                (
                  (1, omega arith, log.post_logs request c),
                  omega (arith, log.post_sleeps_not request c),
                  (c, delivered-Succeeds _ success, refl),
                )
          | inr failure ↦
              subst⁻¹ (Tried (suc (suc left)) (backoff + waits) request c)
                {y = attempts hex client (suc left) (backoff * 2) request (client.sleep backoff c')}
                (rw (failure, not_last left))
                (shift (suc left) waits backoff request c (client.sleep backoff c') _
                  (log.sleep_posts_not backoff c' ∙ log.post_logs request c)
                  (omega (arith, log.post_sleeps_not request c, log.sleep_counts backoff c'))
                  (go_on (client.sleep backoff c')))
        ]
      where
        not_last : (n : ℕ) → (suc n == 0) ≡ false
        not_last n = ground arith

    -- A payload that has its JSON is posted at most three times, and each post is of the same
    -- request, signed with the MAC of its body under the secret, in hex; the pauses take at most
    -- 2 + 4 seconds in all. A delivery that succeeds ends with a post that was answered by a success,
    -- and one that fails has posted exactly three times and paused for 6 seconds.
    pub deliver-Tried :
        (payload : Webhook) (body : Text) (c : C)
        → client.to_string payload ≡ some body
        → Tried 3 6
            (record {
              url = payload.callback_url;
              signature = hex.encode (client.hmac_sha256 body payload.signing_secret);
              body = body;
            })
            c
            (deliver hex client payload c)
    unfolding deliver compute_signature
    deliver-Tried payload body c e =
        let request : Post = record {
          url = payload.callback_url;
          signature = hex.encode (client.hmac_sha256 body payload.signing_secret);
          body = body;
        } in
        subst⁻¹ (Tried 3 6 request c) {y = attempts hex client 3 2 request c} (rw (e, deliver)) (
          one_more 1 4 2 request c
            (λ c'. one_more 0 0 4 request c' (λ c''. last_try 8 request c'')))
