-- ===== src/Core/Direct/SingleUse.antt =====
-- crates/core/src/direct.rs: all that one sender ever discloses, over any sequence of turns.
use envshare.Prelude.{
  ℕ, ◌≡◌, ◌⊎◌, inl, inr, Option, some, List, [], ◌∷◌, ◌++◌, All, All-append, Bytes, Option-cases,
  arith,
}
use envshare.Primitives.{Primitives}
use envshare.Core.Sender.{BoundClaim, SenderActor}
use envshare.Core.Direct.{Exchange, Turn, take_turn, run}
use envshare.Core.Lifecycle.{IsConsistent}
use envshare.Core.Direct.Turns.{
  IsSilent, IsBound, IsSilent-IsBound, turn-IsConsistent, turn-claim, turn-IsBound, turn-IsSilent,
}

silent-IsBound : (c : BoundClaim) (xs : List Exchange) → All IsSilent xs → All (IsBound c) xs
silent-IsBound c [] h = tt
silent-IsBound c (x ∷ xs) (s, h) = (IsSilent-IsBound c x s, silent-IsBound c xs h)

-- Either nothing is disclosed, or all offers are bound to one claim.
pub IsSingleUse : List Exchange → Type 0
IsSingleUse xs = All IsSilent xs ⊎ ((c : BoundClaim) × All (IsBound c) xs)

module _ (P : Primitives) (checked_add : ℕ → ℕ → Option ℕ) {S : Type 0}
    (fill : S → ℕ → Option Bytes × S) where
  abbrev ran : SenderActor → S → List Turn → List Exchange
  ran a entropy turns = (run P checked_add fill a entropy turns).1

  -- The loop stops after the first turn, or goes on.
  ran-cases :
      (a : SenderActor) (entropy : S) (turn : Turn) (turns : List Turn)
      → let t = take_turn P checked_add fill a entropy turn in
        (ran a entropy (turn ∷ turns) ≡ t.exchanges)
        ⊎ (ran a entropy (turn ∷ turns) ≡ t.exchanges ++ ran t.actor t.entropy turns)
  unfolding run
  ran-cases a entropy turn turns =
      elim (Option-cases (take_turn P checked_add fill a entropy turn).outcome) [
        | inl n ↦ inr (ground (arith, n))
        | inr (result, e) ↦ inl (ground (arith, e))
      ]

  run-IsBound :
      (a : SenderActor) (entropy : S) (turns : List Turn) (c : BoundClaim)
      → IsConsistent a
      → a.claim ≡ some c
      → All (IsBound c) (ran a entropy turns)
  unfolding run
  run-IsBound a entropy [] c h k = tt
  run-IsBound a entropy (turn ∷ turns) c h k =
      let t = take_turn P checked_add fill a entropy turn in
      let k' = turn-claim P checked_add fill a entropy turn c h k in
      let now = turn-IsBound P checked_add fill a entropy turn c k' in
      elim (ran-cases a entropy turn turns) [
        | inl e ↦ rw e now
        | inr e ↦ rw e (
            All-append (IsBound c) t.exchanges (ran t.actor t.entropy turns) now (
              run-IsBound t.actor t.entropy turns c
                (turn-IsConsistent P checked_add fill a entropy turn h) k'))
      ]

  -- Over any sequence of turns of the sender's loop, a consistent actor gives offers to one peer
  -- only, for one receiver nonce, and all of them are the same offer, or it gives none.
  pub run-IsSingleUse :
      (a : SenderActor) (entropy : S) (turns : List Turn)
      → IsConsistent a
      → IsSingleUse (run P checked_add fill a entropy turns).1
  unfolding run IsSingleUse
  run-IsSingleUse a entropy [] h = inl tt
  run-IsSingleUse a entropy (turn ∷ turns) h =
      let t = take_turn P checked_add fill a entropy turn in
      let h' = turn-IsConsistent P checked_add fill a entropy turn h in
      let rest = run-IsSingleUse t.actor t.entropy turns h' in
      elim (Option-cases t.actor.claim) [
        | inl n ↦
            let now = turn-IsSilent P checked_add fill a entropy turn n in
            elim (ran-cases a entropy turn turns) [
              | inl e ↦ inl (rw e now)
              | inr e ↦ elim rest [
                | inl s ↦
                    inl (rw e (All-append IsSilent t.exchanges (ran t.actor t.entropy turns) now s))
                | inr (c, b) ↦ inr (
                  c,
                  rw e (
                      All-append (IsBound c) t.exchanges (ran t.actor t.entropy turns)
                        (silent-IsBound c t.exchanges now) b),
                )
              ]
            ]
        | inr (c, k) ↦
            let now = turn-IsBound P checked_add fill a entropy turn c k in
            elim (ran-cases a entropy turn turns) [
              | inl e ↦ inr (c, rw e now)
              | inr e ↦ inr (
                c,
                rw e (
                    All-append (IsBound c) t.exchanges (ran t.actor t.entropy turns) now
                      (run-IsBound t.actor t.entropy turns c h' k)),
              )
            ]
      ]
