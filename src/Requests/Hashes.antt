-- ===== src/Requests/Hashes.antt =====
-- The form of a SHA-512 crypt hash: SHA512_CRYPT_RE of config-server/request_models.py.
use Prim.Native.Char.{code}
use admin_infra_proposed.Base.{
  ℕ, suc, String, Bool, true, false, ◌&&◌, ◌||◌, Option, none, some, if◌then◌else◌, leb, ◌=ℕ◌,
}

-- `[./0-9A-Za-z]`
is_crypt_char : ℕ → Bool
is_crypt_char c = (leb 46 c && leb c 57) || (leb 65 c && leb c 90) || (leb 97 c && leb c 122)

is_digit : ℕ → Bool
is_digit c = leb 48 c && leb c 57

-- What follows a prefix.
after_prefix : String → String → Option String
after_prefix String.[] s = some s
after_prefix (String.◌∷◌ p ps) String.[] = none
after_prefix (String.◌∷◌ p ps) (String.◌∷◌ c s) =
    let rest = after_prefix ps s in if code p =ℕ code c then rest else none

-- How many characters of a class stand first, and what follows them.
span : (ℕ → Bool) → String → ℕ × String
span in_class String.[] = (0, String.[])
span in_class (String.◌∷◌ c s) =
    let rest = span in_class s in
    if in_class (code c) then (suc rest.0, rest.1) else (0, String.◌∷◌ c s)

-- `[./0-9A-Za-z]{86}$`, where `$` also stands before a line feed at the end.
is_digest : String → Bool
unfolding is_crypt_char span
is_digest s =
    let r = span is_crypt_char s in
    (r.0 =ℕ 86) && (elim r.1 [
      | String.[] ↦ true
      | String.◌∷◌ c rest ↦
          (code c =ℕ 10) && (elim rest [ String.[] ↦ true | String.◌∷◌ d t ↦ false ])
    ])

-- `[./0-9A-Za-z]{1,16}\$` and the digest; no character of the salt is a `$`.
salted : String → Bool
unfolding is_crypt_char span after_prefix is_digest
salted s =
    let r = span is_crypt_char s in
    (leb 1 r.0 && leb r.0 16)
    && (elim (after_prefix "$" r.1) [ none ↦ false | some rest ↦ is_digest rest ])

-- `(rounds=[0-9]+\$)?`; a salt has no `=`, so a text that begins so has the rounds.
rounded : String → Bool
unfolding is_digit span after_prefix salted
rounded s = elim (after_prefix "rounds=" s) [
  | none ↦ salted s
  | some rest ↦
      let r = span is_digit rest in
      leb 1 r.0 && (elim (after_prefix "$" r.1) [ none ↦ false | some t ↦ salted t ])
]

unfoldable pub is_sha512_crypt : String → Bool
unfolding after_prefix rounded
is_sha512_crypt s = elim (after_prefix "$6$" s) [ none ↦ false | some rest ↦ rounded rest ]
