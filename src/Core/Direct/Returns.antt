-- ===== src/Core/Direct/Returns.antt =====
-- crates/core/src/direct.rs: when the sender's loop returns, and with what.
use envshare.Prelude.{
  ℕ, ◌≡◌, refl, sym, subst, ◌∙◌, ◌⊎◌, inl, inr, true, false, Option, some, List, [], ◌∷◌, Bytes,
  Option-cases, ok, arith, some-inj, ok-inj,
}
use envshare.Primitives.{Primitives}
use envshare.Core.Sender.{SenderState, SenderActor, handle_timer}
use envshare.Core.Direct.{
  Exchange, inbound_request, other, Turn, cancelled, tick, stopped, received, Turned, is_terminal,
  answer, end_turn, take_turn, run,
}
use envshare.Core.Lifecycle.{IsConsistent, IsWiped}
use envshare.Core.Lifecycle.Opens.{terminal-IsWiped}
use envshare.Core.Direct.Turns.{turn-IsConsistent}

-- Some turn is a cancellation.
pub data WasCancelled : List Turn → Type 0 where
  here : (turns : List Turn) → WasCancelled (cancelled ∷ turns)
  later : (turn : Turn) (turns : List Turn) → WasCancelled turns → WasCancelled (turn ∷ turns)

-- Why the loop returns the actor's state.
pub record Returned (s : SenderState) (turns : List Turn) (a : SenderActor) : Type 0 where
  pub state_eq : s ≡ a.state
  pub reason : ((is_terminal s ≡ true) × IsWiped a) ⊎ WasCancelled turns

module _ (P : Primitives) (checked_add : ℕ → ℕ → Option ℕ) {S : Type 0}
    (fill : S → ℕ → Option Bytes × S) where
  abbrev t : SenderActor → S → Turn → Turned S
  t a entropy turn = take_turn P checked_add fill a entropy turn

  end_turn-returns :
      (a : SenderActor) (entropy : S) (xs : List Exchange) (s : SenderState)
      → (end_turn P checked_add fill a entropy xs).outcome ≡ some (ok s)
      → (s ≡ a.state) × (is_terminal a.state ≡ true)
  unfolding end_turn
  end_turn-returns a entropy xs s h = ground arith

  turn-returns :
      (a : SenderActor) (entropy : S) (turn : Turn) (s : SenderState)
      → (t a entropy turn).outcome ≡ some (ok s)
      → (s ≡ (t a entropy turn).actor.state)
        × ((is_terminal (t a entropy turn).actor.state ≡ true) ⊎ (turn ≡ cancelled))
  unfolding take_turn
  turn-returns a entropy cancelled s h = (sym (ok-inj (some-inj h)), inr refl)
  turn-returns a entropy (tick now) s h =
      let (q, e) = end_turn-returns (handle_timer a now) entropy [] s h in (q, inl e)
  turn-returns a entropy stopped s h = cc
  turn-returns a entropy (received other now delivered) s h =
      let (q, e) = end_turn-returns a entropy [] s h in (q, inl e)
  turn-returns a entropy (received (inbound_request peer id request) now true) s h =
      let (response, a', entropy') = answer P checked_add fill a entropy peer request now in
      let (q, e) =
        end_turn-returns a' entropy'
          (t a entropy (received (inbound_request peer id request) now true)).exchanges s h in
      (q, inl e)
  turn-returns a entropy (received (inbound_request peer id request) now false) s h =
      ground (arith, h)

  run-cases :
      (a : SenderActor) (entropy : S) (turn : Turn) (turns : List Turn)
      → let u = t a entropy turn in
        let whole = run P checked_add fill a entropy (turn ∷ turns) in
        let rest = run P checked_add fill u.actor u.entropy turns in
        ((whole.0 ≡ u.outcome) × (whole.2 ≡ u.actor)) ⊎ ((whole.0 ≡ rest.0) × (whole.2 ≡ rest.2))
  unfolding run
  run-cases a entropy turn turns = elim (Option-cases (t a entropy turn).outcome) [
    | inl n ↦ inr (ground (arith, n), ground (arith, n))
    | inr (result, e) ↦ inl (ground (arith, e), ground (arith, e))
  ]

  turn-Returned :
      (a : SenderActor) (entropy : S) (turn : Turn) (turns : List Turn) (s : SenderState)
      → IsConsistent a
      → (t a entropy turn).outcome ≡ some (ok s)
      → Returned s (turn ∷ turns) (t a entropy turn).actor
  turn-Returned a entropy turn turns s h k =
      let (q, why) = turn-returns a entropy turn s k in
      record {
        state_eq = q;
        reason = elim why [
          | inl e ↦ inl (
            rw q e,
            terminal-IsWiped P checked_add fill (t a entropy turn).actor
                (turn-IsConsistent P checked_add fill a entropy turn h) e,
          )
          | inr e ↦ inr (subst (λ x. WasCancelled (x ∷ turns)) (sym e) (here turns))
        ];
      }

  -- When the loop of a consistent sender returns a state, it is the actor's, and either it is
  -- terminal and the root keys and the envelope are wiped, or a turn was a cancellation.
  pub run-Returned :
      (a : SenderActor) (entropy : S) (turns : List Turn) (s : SenderState)
      → IsConsistent a
      → (run P checked_add fill a entropy turns).0 ≡ some (ok s)
      → Returned s turns (run P checked_add fill a entropy turns).2
  unfolding run
  run-Returned a entropy [] s h k = cc
  run-Returned a entropy (turn ∷ turns) s h k =
      let u = t a entropy turn in
      elim (run-cases a entropy turn turns) [
        | inl (o, e) ↦ rw e (turn-Returned a entropy turn turns s h (sym o ∙ k))
        | inr (o, e) ↦
            let r =
              run-Returned u.actor u.entropy turns s
                (turn-IsConsistent P checked_add fill a entropy turn h) (sym o ∙ k) in
            rw e (record {
              state_eq = r.state_eq;
              reason = elim r.reason [ inl w ↦ inl w | inr c ↦ inr (later turn turns c) ];
            })
      ]
