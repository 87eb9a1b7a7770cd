-- ===== src/Base/Letters.antt =====
-- A name of taxonomy.py that has been resolved is reused from then on.
use Prim.Native.String.{[], ◌∷◌}
use Prim.Native.String.{String}
use mathlib.Core.Path.{◌≡◌, refl}
use mathlib.Core.Bool.{true}
use native.Mathlib.Omega.{arith}
use paperless_assistant.Base.Text.{same_letters}

-- texts with the same letters compare in the same way with every text
pub same_letters_cong :
    (k s t : String) → same_letters s t ≡ true → same_letters k s ≡ same_letters k t
unfolding same_letters
same_letters_cong [] [] [] h = refl
same_letters_cong [] [] (d ∷ t) h = ground arith
same_letters_cong [] (c ∷ s) [] h = ground arith
same_letters_cong [] (c ∷ s) (d ∷ t) h = refl
same_letters_cong (b ∷ k) [] [] h = refl
same_letters_cong (b ∷ k) [] (d ∷ t) h = ground arith
same_letters_cong (b ∷ k) (c ∷ s) [] h = ground arith
same_letters_cong (b ∷ k) (c ∷ s) (d ∷ t) h = ground (arith, same_letters_cong k s t)

pub same_letters_self : (s : String) → same_letters s s ≡ true
unfolding same_letters
same_letters_self [] = refl
same_letters_self (c ∷ s) = ground (arith, same_letters_self s)
