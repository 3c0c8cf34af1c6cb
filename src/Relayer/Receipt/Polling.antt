-- ===== src/Relayer/Receipt/Polling.antt =====
-- src/relayer/erc4337/mod.rs: the wait for a receipt ends, and says what it saw.
use agent_execution_platform.Prelude.{
  ℕ, zero, suc, ◌+◌, ◌*◌, ◌≤◌, ◌≡◌, ◌⊎◌, refl, inl, inr, true, false, Option, some, leb, Bool-cases,
  Option-cases, arith,
}
use mathlib.Core.Path.{subst⁻¹}
use agent_execution_platform.Prelude.Text.{Text}
use agent_execution_platform.Prelude.Actions.{Action}
use agent_execution_platform.Types.{UserOpResult}
use agent_execution_platform.Crates.{Clock}
use agent_execution_platform.Relayer.Answers.{JsonRpcResponse}
use agent_execution_platform.Relayer.Receipt.{
  UserOpReceiptResponse, answered_receipt, timed_out, included, poll_loop, wait_for_receipt,
  user_op_confirmation_timeout, user_op_poll_interval,
}

module _ {C : Type 0} (clock : Clock C)
    (get_user_op_receipt : Text → Action C Text (JsonRpcResponse UserOpReceiptResponse)) where
  -- How a wait ends: at its deadline, with the timeout's result, or with what is said by a receipt
  -- that the bundler gave.
  abbrev pub Ended : ℕ → Text → Option UserOpResult × C → Type 0
  Ended deadline user_op_hash end =
      (result : UserOpResult) × (end.0 ≡ some result)
      × (((result ≡ timed_out user_op_hash) × (deadline ≤ clock.now end.1))
          ⊎ ((c : C) × (receipt : UserOpReceiptResponse) × (answered_receipt clock
                  get_user_op_receipt (get_user_op_receipt user_op_hash c).0
                ≡ some receipt)
              × (result ≡ included user_op_hash receipt)))

  -- The time after a poll and the sleep that follows it.
  abbrev next : Text → C → C
  next user_op_hash c = clock.sleep user_op_poll_interval (get_user_op_receipt user_op_hash c).1

  one_round :
      (fuel deadline : ℕ) (user_op_hash : Text) (c : C)
      → (leb deadline (clock.now c) ≡ false
          → Ended deadline user_op_hash (
              poll_loop clock get_user_op_receipt fuel deadline user_op_hash (next user_op_hash c)))
      → Ended deadline user_op_hash
          (poll_loop clock get_user_op_receipt (suc fuel) deadline user_op_hash c)
  unfolding poll_loop
  one_round fuel deadline user_op_hash c go_on = elim (Bool-cases (leb deadline (clock.now c))) [
    | inl late ↦
        subst⁻¹ (Ended deadline user_op_hash) {y = (some (timed_out user_op_hash), c)} (rw late)
          (timed_out user_op_hash, refl, inl (refl, leb_le deadline (clock.now c) late))
    | inr early ↦
        elim (Option-cases
          (answered_receipt clock get_user_op_receipt (get_user_op_receipt user_op_hash c).0)) [
            | inr (receipt, e) ↦
                subst⁻¹ (Ended deadline user_op_hash)
                  {y = (
                    some (included user_op_hash receipt),
                    (get_user_op_receipt user_op_hash c).1,
                  )}
                  (rw (early, e)) (included user_op_hash receipt, refl, inr (c, receipt, e, refl))
            | inl e ↦
                subst⁻¹ (Ended deadline user_op_hash)
                  {y = poll_loop clock get_user_op_receipt fuel deadline user_op_hash
                    (next user_op_hash c)}
                  (rw (early, e)) (go_on early)
          ]
  ]
    where
      leb_le : (a b : ℕ) → leb a b ≡ true → a ≤ b
      leb_le a b e = ground arith

  -- A bundler's answer takes time, if any: the clock does not go back.
  abbrev pub GoesForward : Type 0
  GoesForward =
      (user_op_hash : Text) (c : C) → clock.now c ≤ clock.now (get_user_op_receipt user_op_hash c).1

  loop_ends :
      GoesForward
      → (fuel deadline : ℕ) (user_op_hash : Text) (c : C) → deadline ≤ clock.now c + 3 * fuel
      → Ended deadline user_op_hash
          (poll_loop clock get_user_op_receipt (suc fuel) deadline user_op_hash c)
  loop_ends forward zero deadline user_op_hash c h =
      one_round zero deadline user_op_hash c
        (λ early. absurd (not_early deadline (clock.now c) h early))
    where
      not_early : (a b : ℕ) → a ≤ b + 3 * 0 → leb a b ≡ false → ⊥
      not_early a b h e = ground arith
  loop_ends forward (suc fuel) deadline user_op_hash c h =
      one_round (suc fuel) deadline user_op_hash c (λ early.
        loop_ends forward fuel deadline user_op_hash (next user_op_hash c) (
          omega (
            arith,
            forward user_op_hash c,
            clock.slept user_op_poll_interval (get_user_op_receipt user_op_hash c).1,
          )))

  -- Forty-one rounds are enough for the wait, if the clock does not go back: it returns a result,
  -- the timeout's only when 120 seconds have passed, and otherwise what a receipt of the bundler
  -- says, a revert for one that did not succeed.
  pub wait_for_receipt-Ended :
      (fuel : ℕ) (user_op_hash : Text) (c : C)
      → GoesForward
      → 41 ≤ fuel
      → Ended
          (clock.now c + user_op_confirmation_timeout)
          user_op_hash
          (wait_for_receipt clock get_user_op_receipt fuel user_op_hash c)
  unfolding wait_for_receipt
  wait_for_receipt-Ended zero user_op_hash c forward enough = absurd (omega arith)
  wait_for_receipt-Ended (suc fuel) user_op_hash c forward enough =
      loop_ends forward fuel (clock.now c + user_op_confirmation_timeout) user_op_hash c
        (omega arith)
