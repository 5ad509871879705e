-- ===== src/LedgerText/Lines.antt =====
-- Round trips of the ledger's lines and files.
use admin_infra_proposed.Base.{
  some_inj, ◌≡◌, refl, sym, ap, ◌∙◌, inl, inr, arith, Option-cases, Bool, true, false, not, ◌&&◌,
  Option, some, List, [], ◌∷◌, ◌++◌, append_nil, append_assoc, map,
}
use admin_infra_proposed.Ledger.{elem}
use admin_infra_proposed.LedgerText.{
  Chars, PasswdEntry, GroupLine, ◌>>=◌, separators, is_clean, ledger_field, digits, join,
  passwd_text, format_passwd_entry, not_empty, one_line, parse_passwd_line, all_clean, group_text,
  format_group_entry, parse_group_line, content, lines_from, read_lines,
}
use admin_infra_proposed.LedgerText.Fields.{
  empty, number-digits, digits-is_clean, cut-append, clean_line, member_texts, split-join,
  clean-append,
}

fields_clean : PasswdEntry → Bool
unfolding is_clean
fields_clean d =
    is_clean d.name && is_clean d.passwd && is_clean d.gecos && is_clean d.home && is_clean d.shell

formatted :
    (d : PasswdEntry) (line : Chars)
    → format_passwd_entry d ≡ some line
    → (fields_clean d ≡ true) × (some line ≡ some (passwd_text d))
unfolding format_passwd_entry ledger_field fields_clean
formatted d line h = ground (arith, h)

named : (name : Chars) → empty name ≡ false → not_empty name ≡ some name
unfolding not_empty
named [] h = absurd (ground (arith, h))
named (c ∷ s) h = refl

one_line_clean : (s : Chars) → is_clean s ≡ true → one_line s ≡ some s
unfolding one_line
one_line_clean s h = ground (arith, clean_line s h)

parse_text :
    (d : PasswdEntry)
    → fields_clean d ≡ true
    → empty d.name ≡ false
    → parse_passwd_line (passwd_text d) ≡ some d
unfolding parse_passwd_line passwd_text fields_clean
parse_text d h k =
    let r6 = d.home ++ 58 ∷ d.shell in
    let r5 = d.gecos ++ 58 ∷ r6 in
    let r4 = digits d.gid ++ 58 ∷ r5 in
    let r3 = digits d.uid ++ 58 ∷ r4 in
    let r2 = d.passwd ++ 58 ∷ r3 in
    rw (cut-append d.name r2 (ground (arith, h))) (
      rw (named d.name k) (
        rw (cut-append d.passwd r3 (ground (arith, h))) (
          rw (cut-append (digits d.uid) r4 (digits-is_clean d.uid)) (
            rw (cut-append (digits d.gid) r5 (digits-is_clean d.gid)) (
              rw (cut-append d.gecos r6 (ground (arith, h))) (
                rw (cut-append d.home d.shell (ground (arith, h))) (
                  rw (number-digits d.uid) (
                    rw (number-digits d.gid)
                      (rw (one_line_clean d.shell (ground (arith, h))) refl)))))))))

-- A passwd entry that can be formatted is what its line parses to, if its name is not empty.
pub parse-format_passwd_entry :
    (d : PasswdEntry) (line : Chars)
    → format_passwd_entry d ≡ some line
    → empty d.name ≡ false
    → parse_passwd_line line ≡ some d
parse-format_passwd_entry d line h k =
    let (clean, same) = formatted d line h in
    ap (λ o. o >>= parse_passwd_line) same ∙ parse_text d clean k

group_formatted :
    (d : GroupLine) (line : Chars)
    → format_group_entry d ≡ some line
    → ((is_clean d.name && is_clean d.passwd && all_clean d.members) ≡ true)
      × (some line ≡ some (group_text d))
unfolding format_group_entry ledger_field
group_formatted d line h = ground (arith, h)

join_line : (ms : List Chars) → all_clean ms ≡ true → elem 10 (join ms) ≡ false
unfolding all_clean join elem
join_line [] h = refl
join_line (m ∷ []) h = clean_line m (ground (arith, h))
join_line (m ∷ n ∷ ms) h =
    clean-append m (44 ∷ join (n ∷ ms)) (ground (arith, h))
      (ground (arith, join_line (n ∷ ms) (ground (arith, h))))

one_line_of : (s : Chars) → elem 10 s ≡ false → one_line s ≡ some s
unfolding one_line
one_line_of s h = ground (arith, h)

parse_group_text :
    (d : GroupLine)
    → (is_clean d.name && is_clean d.passwd && all_clean d.members) ≡ true
    → empty d.name ≡ false
    → member_texts d.members ≡ true
    → parse_group_line (group_text d) ≡ some d
unfolding parse_group_line group_text
parse_group_text d h k m =
    let r3 = digits d.gid ++ 58 ∷ join d.members in
    let r2 = d.passwd ++ 58 ∷ r3 in
    rw (cut-append d.name r2 (ground (arith, h))) (
      rw (named d.name k) (
        rw (cut-append d.passwd r3 (ground (arith, h))) (
          rw (cut-append (digits d.gid) (join d.members) (digits-is_clean d.gid)) (
            rw (number-digits d.gid) (
              rw (one_line_of (join d.members) (join_line d.members (ground (arith, h))))
                (rw (split-join d.members m) refl))))))

-- A group entry that can be formatted is what its line parses to, if its name is not empty and no
-- member is empty or has a comma.
pub parse-format_group_entry :
    (d : GroupLine) (line : Chars)
    → format_group_entry d ≡ some line
    → empty d.name ≡ false
    → member_texts d.members ≡ true
    → parse_group_line line ≡ some d
parse-format_group_entry d line h k m =
    let (clean, same) = group_formatted d line h in
    ap (λ o. o >>= parse_group_line) same ∙ parse_group_text d clean k m

-- No character of it ends a line for Python.
unfoldable pub unbroken : Chars → Bool
unfolding elem
unbroken [] = true
unbroken (c ∷ s) = not (elem c separators) && unbroken s

clean_unbroken : (s : Chars) → is_clean s ≡ true → unbroken s ≡ true
unfolding is_clean unbroken
clean_unbroken [] h = refl
clean_unbroken (c ∷ s) h = ground (arith, h, clean_unbroken s)

unbroken-append : (a b : Chars) → unbroken (a ++ b) ≡ unbroken a && unbroken b
unfolding unbroken
unbroken-append [] b = refl
unbroken-append (c ∷ a) b = ground (arith, unbroken-append a b)

-- Two fields with a colon between them.
pair_unbroken :
    (a b : Chars) → is_clean a ≡ true → unbroken b ≡ true → unbroken (a ++ 58 ∷ b) ≡ true
unfolding unbroken elem
pair_unbroken a b h k = ground (arith, unbroken-append a (58 ∷ b), clean_unbroken a h, k)

text_unbroken : (d : PasswdEntry) → fields_clean d ≡ true → unbroken (passwd_text d) ≡ true
unfolding passwd_text fields_clean
text_unbroken d h = pair_unbroken d.name _ (ground (arith, h)) (
    pair_unbroken d.passwd _ (ground (arith, h)) (
      pair_unbroken (digits d.uid) _ (digits-is_clean d.uid) (
        pair_unbroken (digits d.gid) _ (digits-is_clean d.gid) (
          pair_unbroken d.gecos _ (ground (arith, h)) (
            pair_unbroken d.home d.shell (ground (arith, h))
              (clean_unbroken d.shell (ground (arith, h))))))))

lines-append :
    (cur l r : Chars)
    → unbroken l ≡ true
    → lines_from cur false (l ++ 10 ∷ r) ≡ (cur ++ l) ∷ lines_from [] false r
unfolding lines_from unbroken elem
lines-append cur [] r h = ap (λ s. s ∷ lines_from [] false r) (sym (append_nil cur))
lines-append cur (c ∷ l) r h =
    let plain : elem c separators ≡ false = ground (arith, h) in
    rw plain (
      lines-append (cur ++ c ∷ []) l r (ground (arith, h))
      ∙ ap (λ s. s ∷ lines_from [] false r) (append_assoc cur (c ∷ []) l))

unfoldable pub all_unbroken : List Chars → Bool
unfolding unbroken
all_unbroken [] = true
all_unbroken (l ∷ lines) = unbroken l && all_unbroken lines

read-content : (lines : List Chars) → all_unbroken lines ≡ true → read_lines (content lines) ≡ lines
unfolding read_lines content all_unbroken lines_from
read-content [] h = refl
read-content (l ∷ lines) h =
    lines-append [] l (content lines) (ground (arith, h))
    ∙ ap (λ rest. l ∷ rest) (read-content lines (ground (arith, h)))

-- The lines of some entries, where every entry can be formatted.
unfoldable pub format_all : List PasswdEntry → Option (List Chars)
format_all [] = some []
format_all (d ∷ ds) = do line ← format_passwd_entry d; lines ← format_all ds; some (line ∷ lines)

unfoldable pub all_named : List PasswdEntry → Bool
all_named [] = true
all_named (d ∷ ds) = not (empty d.name) && all_named ds

written_lem :
    (ds : List PasswdEntry) (lines : List Chars)
    → format_all ds ≡ some lines
    → all_named ds ≡ true
    → (all_unbroken lines ≡ true) × (map parse_passwd_line lines ≡ map some ds)
unfolding format_all all_named all_unbroken
written_lem [] lines h k = rw (some_inj (sym h)) (refl, refl)
written_lem (d ∷ ds) lines h k = elim (Option-cases (format_passwd_entry d)) [
  | inl refused ↦ absurd (ground (arith, h, refused))
  | inr (line, one) ↦ elim (Option-cases (format_all ds)) [
    | inl refused ↦ absurd (ground (arith, h, one, refused))
    | inr (rest, others) ↦
        let whole : some lines ≡ some (line ∷ rest) = ground (arith, h, one, others) in
        let (clean, same) = formatted d line one in
        let (unbroken_rest, parsed) = written_lem ds rest others (ground (arith, k)) in
        let read = parse-format_passwd_entry d line one (ground (arith, k)) in
        let plain : unbroken line ≡ true = ap unbroken (some_inj same) ∙ text_unbroken d clean in
        rw (some_inj whole) (
          ground (arith, plain, unbroken_rest),
          ap (λ o. o ∷ map parse_passwd_line rest) read ∙ ap (λ l. some d ∷ l) parsed,
        )
  ]
]

-- The passwd file is read back as it was written: where every entry can be formatted and has a
-- name, the lines of the written content are the formatted entries, none of which another entry
-- can add to, and they parse to the entries in their order.
pub read-written :
    (ds : List PasswdEntry) (lines : List Chars)
    → format_all ds ≡ some lines
    → all_named ds ≡ true
    → (read_lines (content lines) ≡ lines)
      × (map parse_passwd_line (read_lines (content lines)) ≡ map some ds)
read-written ds lines h k =
    let (plain, parsed) = written_lem ds lines h k in
    let back = read-content lines plain in (back, ap (map parse_passwd_line) back ∙ parsed)
