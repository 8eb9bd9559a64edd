-- ===== src/Prelude/Texts.antt =====
-- Texts that begin a text.
use Prim.Native.String.{String, [], ◌∷◌ as ◌∷'◌, ◌++◌ as ◌<>◌}
use Prim.Native.String.append
use Prim.Native.Char.{Char}
use text.Mathlib.TextBridge.{IsPrefix}
use mathlib.Core.Path.{ap₂}
use async_sandbox.Prelude.Base.{◌≡◌, ◌⊎◌, inl, inr, refl, sym, ◌∙◌}

-- Of two texts that begin a text one begins the other.
pub prefixes_nested : (a b s : String) → IsPrefix a s → IsPrefix b s → IsPrefix a b ⊎ IsPrefix b a
prefixes_nested [] b s h k = inl (b, append.nil b)
prefixes_nested (c ∷' a) [] s h k = inr (c ∷' a, append.nil (c ∷' a))
prefixes_nested (c ∷' a) (d ∷' b) s (u, p) (v, q) =
    both (prefixes_nested a b (b <> v) (u, tails) (v, refl))
  where
    whole : c ∷' (a <> u) ≡ d ∷' (b <> v)
    whole = sym (append.cons c a u) ∙ p ∙ sym q ∙ append.cons d b v

    heads : c ≡ d
    heads = cc whole

    tails : a <> u ≡ b <> v
    tails = cc whole

    both : IsPrefix a b ⊎ IsPrefix b a → IsPrefix (c ∷' a) (d ∷' b) ⊎ IsPrefix (d ∷' b) (c ∷' a)
    both (inl (w, r)) = inl (w, append.cons c a w ∙ ap₂ (λ (x : Char) (y : String). x ∷' y) heads r)
    both (inr (w, r)) =
        inr (w, append.cons d b w ∙ ap₂ (λ (x : Char) (y : String). x ∷' y) (sym heads) r)
