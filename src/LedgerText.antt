-- ===== src/LedgerText.antt =====
-- The text of the ledger files: `_ledger_field`, `format_passwd_entry`, `parse_passwd_line`,
-- `format_group_entry`, `parse_group_line` and the writing and reading of the files' lines in
-- config-server/utils.py. A text is the list of its code points; of the decimal digits that `\d`
-- takes, the model has those of ASCII.
pub mod Fields
pub mod Lines
mod Tests
use admin_infra_proposed.Base.{
  ℕ, zero, suc, ◌+◌, ◌-◌, Bool, true, false, not, ◌&&◌, ◌||◌, Option, none, some, List, [], ◌∷◌,
  ◌++◌, if◌then◌else◌, leb, ◌=ℕ◌,
}
use admin_infra_proposed.Ledger.{elem}

abbrev pub Chars : Type 0
Chars = List ℕ

-- _LEDGER_LINE_BREAKS
abbrev pub line_breaks : Chars
line_breaks = 10 ∷ 13 ∷ 11 ∷ 12 ∷ 28 ∷ 29 ∷ 30 ∷ 133 ∷ 8232 ∷ 8233 ∷ []

-- Where Python's `str.splitlines` ends a line, by its documentation; CR LF ends one line only.
abbrev pub separators : Chars
separators = 10 ∷ 13 ∷ 11 ∷ 12 ∷ 28 ∷ 29 ∷ 30 ∷ 133 ∷ 8232 ∷ 8233 ∷ []

-- No colon and no line break.
unfoldable pub is_clean : Chars → Bool
unfolding elem
is_clean [] = true
is_clean (c ∷ s) = (not (c =ℕ 58) && not (elem c line_breaks)) && is_clean s

-- `_ledger_field`: nothing where the field is refused.
unfoldable pub ledger_field : Chars → Option Chars
unfolding is_clean
ledger_field s = if is_clean s then some s else none

-- The decimal digits of a number, the last one first: `int` as a text, counted up.
unfoldable pub increment : Chars → Chars
increment [] = 49 ∷ []
increment (d ∷ ds) = let rest = increment ds in if d =ℕ 57 then 48 ∷ rest else (d + 1) ∷ ds

unfoldable pub backward_digits : ℕ → Chars
unfolding increment
backward_digits zero = 48 ∷ []
backward_digits (suc n) = increment (backward_digits n)

unfoldable pub reversed : Chars → Chars
reversed [] = []
reversed (c ∷ s) = reversed s ++ c ∷ []

-- `str(n)`
unfoldable pub digits : ℕ → Chars
unfolding backward_digits reversed
digits n = reversed (backward_digits n)

-- `\d+` as far as all of the text is concerned.
unfoldable pub all_digits : Chars → Bool
all_digits [] = true
all_digits (c ∷ s) = (leb 48 c && leb c 57) && all_digits s

unfoldable pub value_from : ℕ → Chars → ℕ
value_from n [] = n
value_from n (c ∷ s) = value_from (n + n + n + n + n + n + n + n + n + n + (c - 48)) s

-- `int(s)` where `s` matches `\d+`.
unfoldable pub number : Chars → Option ℕ
unfolding all_digits value_from
number [] = none
number (c ∷ s) = if all_digits (c ∷ s) then some (value_from 0 (c ∷ s)) else none

-- The text up to the first separator and what follows it.
unfoldable pub cut : ℕ → Chars → Option (Chars × Chars)
cut sep [] = none
cut sep (c ∷ s) =
    let rest = cut sep s in
    if c =ℕ sep then some ([], s) else elim rest [ none ↦ none | some p ↦ some (c ∷ p.0, p.1) ]

pub record PasswdEntry : Type 0 where
  pub name : Chars
  pub passwd : Chars
  pub uid : ℕ
  pub gid : ℕ
  pub gecos : Chars
  pub home : Chars
  pub shell : Chars

pub record GroupLine : Type 0 where
  pub name : Chars
  pub passwd : Chars
  pub gid : ℕ
  pub members : List Chars

infixl 5 ◌>>=◌
abbrev pub ◌>>=◌ {ℓ ℓ'} : {A : Type ℓ} {B : Type ℓ'} → Option A → (A → Option B) → Option B
none >>= f = none
some a >>= f = f a

unfoldable pub passwd_text : PasswdEntry → Chars
unfolding digits
passwd_text d =
    d.name
    ++ 58
      ∷ (d.passwd
          ++ 58
            ∷ (digits d.uid
                ++ 58 ∷ (digits d.gid ++ 58 ∷ (d.gecos ++ 58 ∷ (d.home ++ 58 ∷ d.shell)))))

-- `format_passwd_entry`: nothing where a field is refused.
unfoldable pub format_passwd_entry : PasswdEntry → Option Chars
unfolding ledger_field passwd_text
format_passwd_entry d = do
  name ← ledger_field d.name
  passwd ← ledger_field d.passwd
  gecos ← ledger_field d.gecos
  home ← ledger_field d.home
  shell ← ledger_field d.shell
  some (passwd_text d)

unfoldable pub not_empty : Chars → Option Chars
not_empty [] = none
not_empty (c ∷ s) = some (c ∷ s)

unfoldable pub one_line : Chars → Option Chars
unfolding elem
one_line s = if elem 10 s then none else some s

-- `parse_passwd_line`, by the expression _passwd_line_re.
unfoldable pub parse_passwd_line : Chars → Option PasswdEntry
unfolding cut number not_empty one_line
parse_passwd_line line = do
  p1 ← cut 58 line
  name ← not_empty p1.0
  p2 ← cut 58 p1.1
  p3 ← cut 58 p2.1
  p4 ← cut 58 p3.1
  p5 ← cut 58 p4.1
  p6 ← cut 58 p5.1
  uid ← number p3.0
  gid ← number p4.0
  shell ← one_line p6.1
  some (record {
    name = name;
    passwd = p2.0;
    uid = uid;
    gid = gid;
    gecos = p5.0;
    home = p6.0;
    shell = shell;
  })

-- `",".join(members)`
unfoldable pub join : List Chars → Chars
join [] = []
join (m ∷ []) = m
join (m ∷ n ∷ ms) = m ++ 44 ∷ join (n ∷ ms)

unfoldable pub all_clean : List Chars → Bool
unfolding is_clean
all_clean [] = true
all_clean (m ∷ ms) = is_clean m && all_clean ms

unfoldable pub group_text : GroupLine → Chars
unfolding digits join
group_text d = d.name ++ 58 ∷ (d.passwd ++ 58 ∷ (digits d.gid ++ 58 ∷ join d.members))

-- `format_group_entry`
unfoldable pub format_group_entry : GroupLine → Option Chars
unfolding all_clean ledger_field group_text
format_group_entry d = do
  members ← (if all_clean d.members then some d.members else none)
  name ← ledger_field d.name
  passwd ← ledger_field d.passwd
  some (group_text d)

unfoldable pub push : ℕ → List Chars → List Chars
push c [] = (c ∷ []) ∷ []
push c (part ∷ parts) = (c ∷ part) ∷ parts

-- `s.split(",")`
unfoldable pub split : Chars → List Chars
unfolding push
split [] = [] ∷ []
split (c ∷ s) = let rest = split s in if c =ℕ 44 then [] ∷ rest else push c rest

unfoldable pub non_empty_parts : List Chars → List Chars
non_empty_parts [] = []
non_empty_parts ([] ∷ parts) = non_empty_parts parts
non_empty_parts ((c ∷ s) ∷ parts) = (c ∷ s) ∷ non_empty_parts parts

-- `parse_group_line`, by the expression _group_line_re.
unfoldable pub parse_group_line : Chars → Option GroupLine
unfolding cut number not_empty one_line split non_empty_parts
parse_group_line line = do
  p1 ← cut 58 line
  name ← not_empty p1.0
  p2 ← cut 58 p1.1
  p3 ← cut 58 p2.1
  gid ← number p3.0
  members ← one_line p3.1
  some (record { name = name; passwd = p2.0; gid = gid; members = non_empty_parts (split members) })

-- The content that write_passwd_lines and write_group_lines put into the file, for lines of which
-- none ends with a line break.
unfoldable pub content : List Chars → Chars
content [] = []
content (l ∷ lines) = l ++ 10 ∷ content lines

end_line : Chars → List Chars
end_line [] = []
end_line (c ∷ s) = (c ∷ s) ∷ []

-- `s.splitlines()`, with the line so far and whether a carriage return stands before.
unfoldable pub lines_from : Chars → Bool → Chars → List Chars
unfolding elem end_line
lines_from line after_cr [] = end_line line
lines_from line after_cr (c ∷ s) =
    let skipped = lines_from line false s in
    let ended = lines_from [] (c =ℕ 13) s in
    let longer = lines_from (line ++ c ∷ []) false s in
    if after_cr && c =ℕ 10 then skipped else if elem c separators then line ∷ ended else longer

-- `read_passwd_lines` and `read_group_lines`
unfoldable pub read_lines : Chars → List Chars
unfolding lines_from
read_lines s = lines_from [] false s
