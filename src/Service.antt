-- ===== src/Service.antt =====
-- Redis and PostgreSQL as the program meets them (queue/mod.rs and db/mod.rs call both): a server
-- that is not part of the repository, a parameter of the model. `apply` states the documented effect
-- of a command on the server's data. A call answers with the reply, or fails; a failed call may
-- have been carried out or not, since the connection can break before or after.
use mathlib.Core.Path.{subst, subst⁻¹}
use agent_execution_platform.Prelude.{◌≡◌, ◌∙◌, ap, sym, ◌⊎◌, inl, inr, Option, none, some}

-- What a call that began at the data `v` may return, by its answer.
abbrev pub Applied : {V Rep : Type 0} → Rep × V → V → Option Rep → V → Type 0
Applied done v (some reply) v' = (done.0 ≡ reply) × (v' ≡ done.1)
Applied done v none v' = (v' ≡ v) ⊎ (v' ≡ done.1)

pub record Service {V Cmd Rep : Type 0} (apply : Cmd → V → Rep × V) (S : Type 0) : Type 0 where
  pub view : S → V
  pub call : Cmd → S → Option Rep × S
  pub applied :
      (c : Cmd) (s : S) → Applied (apply c (view s)) (view s) (call c s).0 (view (call c s).1)

module _ {V Cmd Rep S : Type 0} {apply : Cmd → V → Rep × V} (srv : Service apply S) where
  Applied_inv :
      (P : V → Type 0) (done : Rep × V) (v v' : V) (o : Option Rep)
      → Applied done v o v'
      → P v
      → P done.1
      → P v'
  Applied_inv P done v v' (some reply) h before after = subst⁻¹ P h.1 after
  Applied_inv P done v v' none h before after = elim h [
    | inl e ↦ subst⁻¹ P e before
    | inr e ↦ subst⁻¹ P e after
  ]

  -- What holds before a command and after its effect holds after the call, however it is answered.
  pub call_inv :
      (P : V → Type 0) (c : Cmd) (s : S)
      → P (srv.view s)
      → P (apply c (srv.view s)).1
      → P (srv.view (srv.call c s).1)
  call_inv P c s before after =
      Applied_inv P (apply c (srv.view s)) (srv.view s) (srv.view (srv.call c s).1) (srv.call c s).0
        (srv.applied c s) before after

  -- An answered call has had its effect.
  pub call_answered :
      (c : Cmd) (s : S) {r : Rep}
      → (srv.call c s).0 ≡ some r
      → ((apply c (srv.view s)).0 ≡ r) × (srv.view (srv.call c s).1 ≡ (apply c (srv.view s)).1)
  call_answered c s {r} e =
      subst (λ o. Applied (apply c (srv.view s)) (srv.view s) o (srv.view (srv.call c s).1)) e
        (srv.applied c s)

  -- A server that answers every call: no connection is lost.
  abbrev pub IsHealthy : Type 0
  IsHealthy = (c : Cmd) (s : S) → (r : Rep) × ((srv.call c s).0 ≡ some r)

  pub call_healthy :
      IsHealthy
      → (c : Cmd) (s : S)
      → ((srv.call c s).0 ≡ some (apply c (srv.view s)).0)
        × (srv.view (srv.call c s).1 ≡ (apply c (srv.view s)).1)
  call_healthy healthy c s =
      let (r, e) = healthy c s in
      let (same, moved) = call_answered c s e in (e ∙ ap some (sym same), moved)
