-- ===== src/App/Connectors/Headers.antt =====
-- The headers that are stored are the ones that are read back.
use Prim.Native.Char.{Char, code}
use orbit_control.Text.Join.{join-nil, join-cons}
use mathlib.Core.Path.{subst}
use orbit_control.Prelude.{
  ℕ, String, Bool, true, false, ◌&&◌, ◌≡◌, refl, sym, ap, some, List, [], ◌∷◌, map, str_eq, ◌==◌,
  contains, arith, str_eq_of_ne, Bool-cases, inl, inr, All,
}
use orbit_control.Outcome.{ok, then-ok, bind-ok, ok_inj}
use orbit_control.Text.{◌⧺◌}
use orbit_control.Service.Mentions.Clean.{Fresh}
use orbit_control.App.Connectors.{
  HeaderRef, is_token_char, all_chars, is_header_name, is_env_name, trim_ref, encode_ref,
  encode_refs, clean_from, check_ref, clean_header_refs, cut, decoded, decode_header_refs,
  is_letter, is_digit,
}

is_token_char-colon : (n : ℕ) → is_token_char n ≡ true → (n == b':') ≡ false
unfolding is_token_char is_letter is_digit
is_token_char-colon n h = ground arith

cut-join :
    (name env : String)
    → all_chars is_token_char name ≡ true
    → cut (name ⧺ ":" ⧺ env) ≡ some (name, env)
unfolding cut all_chars
cut-join String.[] env h = subst (λ x. cut x ≡ some ("", env)) (sym (join-nil ":" env)) refl
cut-join (String.◌∷◌ c s) env h =
    subst (λ x. cut x ≡ some (String.◌∷◌ c s, env)) (sym (join-cons c s ":" env))
      (rw (is_token_char-colon (code c) (ground arith), cut-join s env (ground arith)) refl)

is_set : String → Bool
is_set String.[] = false
is_set (String.◌∷◌ c s) = true

cons_set : (c : Char) (s : String) → str_eq (String.◌∷◌ c s) "" ≡ false
unfolding is_set
cons_set c s = str_eq_of_ne (String.◌∷◌ c s) "" (λ p. let q = ap is_set p in ground arith)

header_name-chars :
    (name : String)
    → is_header_name name ≡ true
    → (all_chars is_token_char name ≡ true) × (str_eq name "" ≡ false)
unfolding is_header_name all_chars
header_name-chars String.[] h = ground arith
header_name-chars (String.◌∷◌ c s) h = (h, cons_set c s)

env_name-set : (env : String) → is_env_name env ≡ true → str_eq env "" ≡ false
unfolding is_env_name
env_name-set String.[] h = ground arith
env_name-set (String.◌∷◌ c s) h = cons_set c s

abbrev Clean : HeaderRef → Type 0
Clean r = (is_header_name r.name ≡ true) × (is_env_name r.env ≡ true)

decode-encode_refs :
    (kept : List HeaderRef) → All Clean kept → decode_header_refs (encode_refs kept) ≡ kept
unfolding decode_header_refs encode_refs encode_ref decoded
decode-encode_refs [] h = refl
decode-encode_refs (r ∷ rs) ((n, e), h) =
    let (chars, set) = header_name-chars r.name n in
    rw (cut-join r.name r.env chars, set, env_name-set r.env e, decode-encode_refs rs h) refl

-- the name of a header, folded, under which it is there once
abbrev pub folded : (String → String) → HeaderRef → String
folded lower r = lower r.name

module _ (lower : String → String) where
  check_ref-Clean :
      (seen : List String) (r : HeaderRef)
      → check_ref lower seen r ≡ ok tt
      → Clean r × (contains (lower r.name) seen ≡ false)
  unfolding check_ref
  check_ref-Clean seen r h = ((ground arith, ground arith), ground arith)

  clean_from-Clean :
      (items : List HeaderRef) (seen : List String) (kept : List HeaderRef)
      → clean_from lower seen items ≡ ok kept
      → All Clean kept × Fresh seen (map (folded lower) kept)
  unfolding clean_from
  clean_from-Clean [] seen kept h = ground arith
  clean_from-Clean (item ∷ items) seen kept h =
      let r = trim_ref item in
      elim (Bool-cases (str_eq r.name "" && str_eq r.env "")) [
        | inl blank ↦ clean_from-Clean items seen kept (rw blank at h)
        | inr set ↦
            let (fine, h₁) = then-ok (check_ref lower seen r) _ (rw set at h) in
            let (rest, h₂, h₃) = bind-ok (clean_from lower (lower r.name ∷ seen) items) _ h₁ in
            let (named, new) = check_ref-Clean seen r fine in
            let (clean, fresh) = clean_from-Clean items (lower r.name ∷ seen) rest h₂ in
            subst (λ k. All Clean k × Fresh seen (map (folded lower) k)) (ok_inj (r ∷ rest) kept h₃)
              ((named, clean), (new, fresh))
      ]

  -- The headers that are accepted for a connector are stored so that reading them back gives the same
  -- ones, in order; none of them, folded, is there twice.
  pub clean_header_refs-decoded :
      (items kept : List HeaderRef) (encoded : List String)
      → clean_header_refs lower items ≡ ok (kept, encoded)
      → (decode_header_refs encoded ≡ kept) × Fresh [] (map (folded lower) kept)
  unfolding clean_header_refs
  clean_header_refs-decoded items kept encoded h =
      let (found, h₁, h₂) = bind-ok (clean_from lower [] items) _ h in
      let (clean, fresh) = clean_from-Clean items [] found h₁ in
      let same = ok_inj (found, encode_refs found) (kept, encoded) h₂ in
      subst (λ r. (decode_header_refs r.1 ≡ r.0) × Fresh [] (map (folded lower) r.0)) same
        (decode-encode_refs found clean, fresh)
