-- ===== src/Sop/Patterns.antt =====
-- internal/task/sop.go: the three regular expressions, as scans of the text.
use Prim.Native.Char.{code}
use orbit_control.Prelude.{
  ℕ, zero, suc, String, Bool, true, false, not, ◌≡◌, refl, ◌&&◌, ◌||◌, leb, ◌==◌, if◌then◌else◌,
}

is_digit : ℕ → Bool
is_digit c = leb b'0' c && leb c b'9'

is_alphanumeric : ℕ → Bool
unfolding is_digit
is_alphanumeric c = is_digit c || leb b'A' c && leb c b'Z' || leb b'a' c && leb c b'z'

is_name_char : ℕ → Bool
unfolding is_alphanumeric
is_name_char c = is_alphanumeric c || c == b'_' || c == b'.' || c == b'-'

-- [A-Za-z0-9_.-]{0,n} to the end
up_to : ℕ → String → Bool
up_to n String.[] = true
up_to zero (String.◌∷◌ c s) = false
up_to (suc n) (String.◌∷◌ c s) = let rest = up_to n s in is_name_char (code c) && rest

-- ^[A-Za-z0-9][A-Za-z0-9_.-]{0,63}$
unfoldable pub is_step_id : String → Bool
unfolding is_name_char up_to
is_step_id String.[] = false
is_step_id (String.◌∷◌ c s) = is_alphanumeric (code c) && up_to 63 s

all_digits : String → Bool
all_digits String.[] = true
all_digits (String.◌∷◌ c s) = let rest = all_digits s in is_digit (code c) && rest

-- [1-9][0-9]* to the end
is_version : String → Bool
unfolding is_digit all_digits
is_version String.[] = false
is_version (String.◌∷◌ c s) = leb b'1' (code c) && leb (code c) b'9' && all_digits s

-- [A-Za-z0-9_.-]*@[1-9][0-9]* to the end; an @ is no name character, so the first one is meant
versioned_tail : String → Bool
unfolding is_version is_name_char
versioned_tail String.[] = false
versioned_tail (String.◌∷◌ c s) =
    let rest = versioned_tail s in
    if code c == b'@' then is_version s else is_name_char (code c) && rest

-- ^[A-Za-z0-9][A-Za-z0-9_.-]*@[1-9][0-9]*$
unfoldable pub is_versioned_id : String → Bool
unfolding versioned_tail
is_versioned_id String.[] = false
is_versioned_id (String.◌∷◌ c s) = is_alphanumeric (code c) && versioned_tail s

-- what \s is
is_blank : ℕ → Bool
is_blank c = c == 9 || c == 10 || c == 12 || c == 13 || c == 32

-- \S*/[1-9][0-9]* to the end: a slash ends the name if a version follows, and is part of it if not
schema_tail : String → Bool
unfolding is_version is_blank
schema_tail String.[] = false
schema_tail (String.◌∷◌ c s) =
    let rest = schema_tail s in
    if code c == b'/' && is_version s then true else not (is_blank (code c)) && rest

-- \S+/[1-9][0-9]* to the end
schema_name : String → Bool
unfolding schema_tail
schema_name String.[] = false
schema_name (String.◌∷◌ c s) = not (is_blank (code c)) && schema_tail s

-- What follows a prefix, if the text begins with it.
after_prefix : String → String → (String → Bool) → Bool
after_prefix String.[] s k = k s
after_prefix (String.◌∷◌ p ps) String.[] k = false
after_prefix (String.◌∷◌ p ps) (String.◌∷◌ c s) k =
    let rest = after_prefix ps s k in (code p == code c) && rest

-- ^schema://\S+/[1-9][0-9]*$
pub is_schema_ref : String → Bool
unfolding schema_name after_prefix
is_schema_ref s = after_prefix "schema://" s schema_name

step_ids : (is_step_id "s1" && not (is_step_id "-s") && not (is_step_id "")) ≡ true
unfolding is_step_id
step_ids = refl

refs :
    (is_versioned_id "expert@3"
      && not (is_versioned_id "expert@03")
      && is_schema_ref "schema://a/b/12")
    ≡ true
unfolding is_versioned_id is_schema_ref
refs = refl
