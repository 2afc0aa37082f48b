-- ===== src/Text/Join.antt =====
-- Two texts around a NUL, as the services join them into one key.
use Prim.Native.Char.{Char, code}
use Prim.Native.String.append
use mathlib.Core.Path.{subst}
use orbit_control.Prelude.{String, Bool, true, not, ◌&&◌, ◌≡◌, refl, ap, arith, ◌==◌, ◌∙◌, sym}
use orbit_control.Text.{◌⧺◌}

-- No character of the text is NUL.
unfoldable pub nul_free : String → Bool
nul_free String.[] = true
nul_free (String.◌∷◌ c s) = not (code c == 0) && nul_free s

head : Char → String → Char
head d String.[] = d
head d (String.◌∷◌ c s) = c

tail : String → String
tail String.[] = String.[]
tail (String.◌∷◌ c s) = s

nul : Char
nul = "\0"

-- a separator of one character between two texts
pub join-nil : (d : Char) (b : String) → String.[] ⧺ String.◌∷◌ d String.[] ⧺ b ≡ String.◌∷◌ d b
join-nil d b =
    rw (append.nil (String.◌∷◌ d String.[]), append.cons d String.[] b, append.nil b) refl

pub join-cons :
    (c : Char) (a sep b : String) → String.◌∷◌ c a ⧺ sep ⧺ b ≡ String.◌∷◌ c (a ⧺ sep ⧺ b)
join-cons c a sep b = rw (append.cons c a sep, append.cons c (a ⧺ sep) b) refl

not_nul : (c : Char) (s : String) → nul ≡ c → nul_free (String.◌∷◌ c s) ≡ true → ⊥
unfolding nul_free nul
not_nul c s p = subst (λ d. nul_free (String.◌∷◌ d s) ≡ true → ⊥) p (λ h. ground arith)

-- Both parts of a joined key can be told from it, if the first holds no NUL.
pub join_inj :
    (a b a' b' : String)
    → nul_free a ≡ true
    → nul_free a' ≡ true
    → a ⧺ "\0" ⧺ b ≡ a' ⧺ "\0" ⧺ b'
    → (a ≡ a') × (b ≡ b')
unfolding nul_free head tail nul
join_inj String.[] b String.[] b' h h' e =
    (refl, ap tail (sym (join-nil nul b) ∙ e ∙ join-nil nul b'))
join_inj String.[] b (String.◌∷◌ d a') b' h h' e =
    let p = ap (head d) (sym (join-nil nul b) ∙ e ∙ join-cons d a' "\0" b') in
    absurd (not_nul d a' p h')
join_inj (String.◌∷◌ c a) b String.[] b' h h' e =
    let p = ap (head c) (sym (join-nil nul b') ∙ sym e ∙ join-cons c a "\0" b) in
    absurd (not_nul c a p h)
join_inj (String.◌∷◌ c a) b (String.◌∷◌ d a') b' h h' e =
    let same = sym (join-cons c a "\0" b) ∙ e ∙ join-cons d a' "\0" b' in
    let (p, q) = join_inj a b a' b' (ground arith) (ground arith) (ap tail same) in
    (cc (ap (head c) same, p), q)
