-- ===== src/Network/Discovery/Ranking.antt =====
-- crates/network/src/discovery.rs: the order in which the candidates are dialed.
use Prim.Native.Nat.{Ordering}
use mathlib.Core.Logic.{∥∥₁_elim}
use mathlib.Core.List.{
  Mem, Perm, Perm-prop, Permᴰ, perm_append_comm, Pairwise, mem-cons_self, forall_mem-cons,
  not-mem-nil,
}
use mathlib.Core.List.Pairwise
use mathlib.Core.List.Perm
use envshare.Prelude.{
  compare_bytes-eq, compare_bytes_swap, compare_bytes_refl, compare_bytes_trans,
  compare_bytes_antisym, compare_bytes_flip, ◌≡◌, ◌≢◌, refl, sym, ap, ap₂, subst, ◌∙◌, append_assoc,
  ◌⊎◌, inl, inr, List, [], ◌∷◌, ◌++◌, Bytes, some-inj, arith,
}
use envshare.Node.Maps.{Map}
use envshare.Network.Multiaddr.{Multiaddrs}
use envshare.Network.Discovery.{
  RouteKind, public_quic, public_tcp, lan, relay, RouteCandidate, CandidateSet, rank, drain,
  compare_routes, insert_route, sort_routes, into_ranked,
}

rank-inj : (a b : RouteKind) → rank a ≡ rank b → a ≡ b
rank-inj public_quic public_quic h = refl
rank-inj public_quic public_tcp h = absurd (omega arith)
rank-inj public_quic lan h = absurd (omega arith)
rank-inj public_quic relay h = absurd (omega arith)
rank-inj public_tcp public_quic h = absurd (omega arith)
rank-inj public_tcp public_tcp h = refl
rank-inj public_tcp lan h = absurd (omega arith)
rank-inj public_tcp relay h = absurd (omega arith)
rank-inj lan public_quic h = absurd (omega arith)
rank-inj lan public_tcp h = absurd (omega arith)
rank-inj lan lan h = refl
rank-inj lan relay h = absurd (omega arith)
rank-inj relay public_quic h = absurd (omega arith)
rank-inj relay public_tcp h = absurd (omega arith)
rank-inj relay lan h = absurd (omega arith)
rank-inj relay relay h = refl

pub Ordering-cases : (o : Ordering) → (o ≡ Ordering.gt) ⊎ ((o ≡ Ordering.lt) ⊎ (o ≡ Ordering.eq))
Ordering-cases Ordering.lt = inr (inl refl)
Ordering-cases Ordering.eq = inr (inr refl)
Ordering-cases Ordering.gt = inl refl

module _ (M : Multiaddrs) where
  -- The first route is dialed before the second, or they are equal.
  pub Before : RouteCandidate → RouteCandidate → Type 0
  Before a b = compare_routes M a b ≢ Ordering.gt

  Before-prop : (a b : RouteCandidate) → IsProp (Before a b)
  unfolding Before
  Before-prop a b = hlevel

  Before-total : (a b : RouteCandidate) → compare_routes M a b ≡ Ordering.gt → Before b a
  unfolding Before compare_routes
  Before-total a b h k = ground (
    arith,
    h,
    k,
    compare_bytes_swap a.peer b.peer,
    compare_bytes_swap (M.to_string a.address) (M.to_string b.address),
    compare_bytes-eq a.peer b.peer,
    compare_bytes_refl a.peer,
  )

  Before-refl : (a : RouteCandidate) → Before a a
  unfolding Before compare_routes
  Before-refl a k =
      ground (arith, k, compare_bytes_refl a.peer, compare_bytes_refl (M.to_string a.address))

  Before-trans : (a b c : RouteCandidate) → Before a b → Before b c → Before a c
  unfolding Before compare_routes
  Before-trans a b c h k g = ground (
    arith,
    g,
    compare_bytes-eq a.peer b.peer,
    compare_bytes-eq b.peer c.peer,
    compare_bytes_trans a.peer b.peer c.peer,
    compare_bytes-eq (M.to_string a.address) (M.to_string b.address),
    compare_bytes-eq (M.to_string b.address) (M.to_string c.address),
    compare_bytes_trans (M.to_string a.address) (M.to_string b.address) (M.to_string c.address),
  )

  to_string-inj : (a b : Bytes) → M.to_string a ≡ M.to_string b → a ≡ b
  to_string-inj a b h = some-inj (sym (M.parse-to_string a) ∙ ap M.parse h ∙ M.parse-to_string b)

  Before-antisym : (a b : RouteCandidate) → Before a b → Before b a → a ≡ b
  unfolding Before compare_routes
  Before-antisym a b h k = ground (
    arith,
    rank-inj a.kind b.kind,
    compare_bytes-eq a.peer b.peer,
    compare_bytes_flip a.peer b.peer,
    compare_bytes_refl a.peer,
    compare_bytes_antisym (M.to_string a.address) (M.to_string b.address),
    to_string-inj a.address b.address,
  )

  pub IsSorted : List RouteCandidate → Type 0
  IsSorted = Pairwise Before

  abbrev IsBelow : RouteCandidate → List RouteCandidate → Type 0
  IsBelow a l = (x : RouteCandidate) → Mem x l → Before a x

  IsBelow-cons :
      (a b : RouteCandidate) {l : List RouteCandidate}
      → Before a b
      → IsBelow a l
      → IsBelow a (b ∷ l)
  IsBelow-cons a b p h = (forall_mem-cons (Before-prop a)).1 (p, h)

  IsBelow-perm :
      (a : RouteCandidate) {l r : List RouteCandidate} → Perm l r → IsBelow a r → IsBelow a l
  IsBelow-perm a p h x m = h x ((Perm.mem_iff p).0 m)

  IsBelow-head :
      (a b : RouteCandidate) {l : List RouteCandidate}
      → Before a b
      → IsSorted (b ∷ l)
      → IsBelow a (b ∷ l)
  unfolding IsSorted
  IsBelow-head a b p (Pairwise.cons h _) = IsBelow-cons a b p (λ x m. Before-trans a b x p (h x m))

  insert_route-perm :
      (c : RouteCandidate) (routes : List RouteCandidate)
      → Perm (insert_route M c routes) (c ∷ routes)
  unfolding insert_route
  insert_route-perm c [] = Perm.rfl
  insert_route-perm c (d ∷ routes) = elim (Ordering-cases (compare_routes M c d)) [
    | inl late ↦
        rw (late, insert_route)
          (Perm.trans (Perm.cons d (insert_route-perm c routes)) (Perm.swap c d routes))
    | inr (inl e) ↦ rw (e, insert_route) Perm.rfl
    | inr (inr e) ↦ rw (e, insert_route) Perm.rfl
  ]

  insert_later :
      (c d : RouteCandidate) (routes : List RouteCandidate)
      → compare_routes M c d ≡ Ordering.gt
      → IsSorted (d ∷ routes)
      → IsSorted (insert_route M c routes)
      → IsSorted (d ∷ insert_route M c routes)
  unfolding IsSorted
  insert_later c d routes late (Pairwise.cons below _) rest =
      Pairwise.cons
        (IsBelow-perm d (insert_route-perm c routes)
          (IsBelow-cons d c (Before-total c d late) below))
        rest

  insert_route-IsSorted :
      (c : RouteCandidate) (routes : List RouteCandidate)
      → IsSorted routes
      → IsSorted (insert_route M c routes)
  unfolding insert_route IsSorted Before
  insert_route-IsSorted c [] s = Pairwise.cons (λ x m. absurd (not-mem-nil m)) Pairwise.nil
  insert_route-IsSorted c (d ∷ routes) s =
      let first : Before c d → IsSorted (c ∷ d ∷ routes) =
        λ p. Pairwise.cons (IsBelow-head c d p s) s in
      elim (Ordering-cases (compare_routes M c d)) [
        | inl late ↦
            rw (late, insert_route)
              (insert_later c d routes late s (insert_route-IsSorted c routes (Pairwise.of_cons s)))
        | inr (inl e) ↦ rw (e, insert_route) (first (λ k. cc))
        | inr (inr e) ↦ rw (e, insert_route) (first (λ k. cc))
      ]

  sort_routes-perm : (routes : List RouteCandidate) → Perm (sort_routes M routes) routes
  unfolding sort_routes
  sort_routes-perm [] = Perm.nil
  sort_routes-perm (c ∷ routes) =
      Perm.trans (insert_route-perm c (sort_routes M routes))
        (Perm.cons c (sort_routes-perm routes))

  sort_routes-IsSorted : (routes : List RouteCandidate) → IsSorted (sort_routes M routes)
  unfolding sort_routes IsSorted
  sort_routes-IsSorted [] = Pairwise.nil
  sort_routes-IsSorted (c ∷ routes) =
      insert_route-IsSorted c (sort_routes M routes) (sort_routes-IsSorted routes)

  first_le :
      {a b : RouteCandidate} {l r : List RouteCandidate}
      → IsSorted (a ∷ l)
      → Perm (b ∷ r) (a ∷ l)
      → Before a b
  first_le {a} {b} s p = IsBelow-perm a p (IsBelow-head a a (Before-refl a) s) b mem-cons_self

  -- Two sorted lists of the same routes are one list.
  IsSorted-eq_of_perm : (l r : List RouteCandidate) → IsSorted l → IsSorted r → Perm l r → l ≡ r
  unfolding IsSorted
  IsSorted-eq_of_perm [] r sl sr p = Perm.nil-eq p
  IsSorted-eq_of_perm (a ∷ l) [] sl sr p = Perm.eq-nil p
  IsSorted-eq_of_perm (a ∷ l) (b ∷ r) sl sr p =
      let same = Before-antisym a b (first_le sl (Perm.symm p)) (first_le sr p) in
      let rest = Perm.cons_inv (Perm.trans p (Perm.symm (Perm.cons' same Perm.rfl))) in
      ap₂ ◌∷◌ same (IsSorted-eq_of_perm l r (Pairwise.of_cons sl) (Pairwise.of_cons sr) rest)

  append_swap : (a b rest : List RouteCandidate) → Perm (a ++ (b ++ rest)) (b ++ (a ++ rest))
  append_swap a b rest =
      subst (λ l. Perm l (b ++ (a ++ rest))) (append_assoc a b rest)
        (subst (λ l. Perm ((a ++ b) ++ rest) l) (append_assoc b a rest)
          (Perm.append_right rest (perm_append_comm a b)))

  drain-permᴰ : {l r : Map Bytes (List RouteCandidate)} → Permᴰ l r → Perm (drain l) (drain r)
  unfolding drain
  drain-permᴰ Permᴰ.nil = Perm.nil
  drain-permᴰ (Permᴰ.cons {a} {b} {l₁} {l₂} e p) =
      subst (λ x. Perm (a.value ++ drain l₁) (x.value ++ drain l₂)) e
        (Perm.append_left a.value (drain-permᴰ p))
  drain-permᴰ (Permᴰ.swap {a} {b} {a'} {b'} {l} e k) =
      subst (λ x. Perm (a.value ++ (b.value ++ drain l)) (a'.value ++ (x.value ++ drain l))) e
        (subst (λ x. Perm (a.value ++ (b.value ++ drain l)) (x.value ++ (a.value ++ drain l))) k
          (append_swap a.value b.value (drain l)))
  drain-permᴰ (Permᴰ.trans p q) = Perm.trans (drain-permᴰ p) (drain-permᴰ q)

  drain-perm : (l r : Map Bytes (List RouteCandidate)) → Perm l r → Perm (drain l) (drain r)
  drain-perm l r p = ∥∥₁_elim p Perm-prop drain-permᴰ

  -- `into_ranked` gives the routes of the set, each as often as it is there, sorted by kind, peer
  -- and text of the address, and sets with the same entries in another order give the same list.
  pub into_ranked-IsSorted :
      (s t : CandidateSet)
      → Perm s.routes t.routes
      → IsSorted (into_ranked M s)
        × Perm (into_ranked M s) (drain s.routes)
        × (into_ranked M s ≡ into_ranked M t)
  unfolding into_ranked
  into_ranked-IsSorted s t p =
      let perm = sort_routes-perm (drain s.routes) in
      let perm' = sort_routes-perm (drain t.routes) in
      let same = drain-perm s.routes t.routes p in
      (
        sort_routes-IsSorted (drain s.routes),
        perm,
        IsSorted-eq_of_perm (sort_routes M (drain s.routes)) (sort_routes M (drain t.routes))
            (sort_routes-IsSorted (drain s.routes)) (sort_routes-IsSorted (drain t.routes))
            (Perm.trans perm (Perm.trans same (Perm.symm perm'))),
      )
