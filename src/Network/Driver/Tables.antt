-- ===== src/Network/Driver/Tables.antt =====
-- crates/network/src/driver.rs: the laws of its tables of ids.
use envshare.Prelude.{ℕ, ◌≡◌, refl, ap, false, some, [], ◌∷◌, ==_refl, Bool-cases, inl, inr}
use envshare.Node.Maps.{Map, get, contains_key, insert, remove, retain}
use envshare.Network.Driver.{same_id, protocol_of}

pub remove_absent :
    (k : ℕ) (m : Map ℕ ℕ) → contains_key same_id k m ≡ false → remove same_id k m ≡ m
unfolding remove retain contains_key
remove_absent k [] h = refl
remove_absent k (e ∷ m) h = elim (Bool-cases (same_id k e.key)) [
  | inl t ↦ cc (rw t at h)
  | inr f ↦ rw f (ap (λ r. e ∷ r) (remove_absent k m (rw f at h)))
]

pub insert_absent :
    (k v : ℕ) (m : Map ℕ ℕ)
    → contains_key same_id k m ≡ false
    → insert same_id k v m ≡ record { key = k; value = v } ∷ m
unfolding insert
insert_absent k v m h = ap (λ r. record { key = k; value = v } ∷ r) (remove_absent k m h)

pub get_first : (k v : ℕ) (m : Map ℕ ℕ) → get same_id k (record { key = k; value = v } ∷ m) ≡ some v
unfolding get
get_first k v m = rw (==_refl k) refl

pub remove_first :
    (k v : ℕ) (m : Map ℕ ℕ)
    → contains_key same_id k m ≡ false
    → remove same_id k (record { key = k; value = v } ∷ m) ≡ m
unfolding remove retain
remove_first k v m h = rw (==_refl k) (remove_absent k m h)

pub protocol_of_first :
    (k v : ℕ) (m : Map ℕ ℕ) → protocol_of v (record { key = k; value = v } ∷ m) ≡ some k
unfolding protocol_of
protocol_of_first k v m = rw (==_refl v) refl
