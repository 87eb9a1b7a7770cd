-- ===== src/ControlPlane/App/Flight.antt =====
-- What taking a request out of those in flight in app.py leaves.
use paperless_assistant.Base.{
  zero, suc, Option, some, Bool, true, false, ◌==◌, if◌then◌else◌, Option-cases, ℕ, ◌≡◌, refl, sym,
  ◌∙◌, inl, inr, String, List, [], ◌∷◌, arith, nat_eq, string_eq, pair_eq,
}
use paperless_assistant.ControlPlane.App.Threads.{Asked, take_out, in_flight}

some_pair :
    {A B : Type 0} {a c : A} {b d : B}
    → ◌≡◌ {A = Option (A × B)} (some (a, b)) (some (c, d))
    → (c ≡ a) × (d ≡ b)
some_pair h = ground (arith, h)

swapped :
    (b f : Bool) (m n : ℕ)
    → m ≡ (if f then suc n else n)
    → (if b then suc m else m)
      ≡ (if f then suc (if b then suc n else n) else (if b then suc n else n))
swapped true true m n e = ground (arith, e)
swapped true false m n e = ground (arith, e)
swapped false true m n e = ground (arith, e)
swapped false false m n e = ground (arith, e)

front :
    (tenant : String) (b a : Asked) (flight rest : List Asked)
    → ◌≡◌ {A = Option (Asked × List Asked)} (some (b, flight)) (some (a, rest))
    → in_flight tenant (b ∷ flight) ≡ in_flight tenant (a ∷ rest)
front tenant b a flight rest h = let (e, f) = some_pair h in rw (e, f) refl

behind :
    (tenant : String) (b a found : Asked) (flight others rest : List Asked)
    → in_flight tenant flight ≡ in_flight tenant (found ∷ others)
    → ◌≡◌ {A = Option (Asked × List Asked)} (some (found, b ∷ others)) (some (a, rest))
    → in_flight tenant (b ∷ flight) ≡ in_flight tenant (a ∷ rest)
behind tenant b a found flight others rest e h =
    let (same, left) = some_pair h in
    rw (same, left)
      (swapped (b.1 == tenant) (found.1 == tenant) (in_flight tenant flight)
        (in_flight tenant others) e)

pub take_out-in_flight :
    (tenant : String) (n : ℕ) (flight rest : List Asked) (a : Asked)
    → take_out n flight ≡ some (a, rest)
    → in_flight tenant flight ≡ in_flight tenant (a ∷ rest)
unfolding take_out
take_out-in_flight tenant n [] rest a h = absurd (ground (arith, h))
take_out-in_flight tenant zero (b ∷ flight) rest a h = front tenant b a flight rest h
take_out-in_flight tenant (suc n) (b ∷ flight) rest a h = elim (Option-cases (take_out n flight)) [
  | inl nothing ↦ absurd (ground (arith, h, nothing))
  | inr ((found, others), there) ↦
      behind tenant b a found flight others rest
        (take_out-in_flight tenant n flight others found there)
        (sym (rw (there, take_out) refl) ∙ h)
]
