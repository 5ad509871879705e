-- ===== src/LedgerText/Tests.antt =====
-- The entry "ab:x:12:7::h:s" and the group "g:x:7:ab,c".
use admin_infra_proposed.Base.{◌≡◌, refl, true, none, some, [], ◌∷◌, map}
use admin_infra_proposed.Ledger.{elem}
use admin_infra_proposed.LedgerText.{
  PasswdEntry, GroupLine, is_clean, all_clean, ledger_field, digits, backward_digits, increment,
  reversed, passwd_text, group_text, format_passwd_entry, format_group_entry, parse_passwd_line,
  content, read_lines,
}
use admin_infra_proposed.LedgerText.Fields.{member_texts, no_comma}
use admin_infra_proposed.LedgerText.Lines.{format_all, all_named, read-written}

abbrev user : PasswdEntry
user = record {
  name = 97 ∷ 98 ∷ [];
  passwd = 120 ∷ [];
  uid = 12;
  gid = 7;
  gecos = [];
  home = 104 ∷ [];
  shell = 115 ∷ [];
}

abbrev team : GroupLine
team = record {
  name = 103 ∷ [];
  passwd = 120 ∷ [];
  gid = 7;
  members = (97 ∷ 98 ∷ []) ∷ (99 ∷ []) ∷ [];
}

-- A home with a line break is refused.
refuses : format_passwd_entry (record user { home = 104 ∷ 8232 ∷ [] }) ≡ none
unfolding format_passwd_entry ledger_field is_clean elem
refuses = refl

user_formats : format_passwd_entry user ≡ some (passwd_text user)
unfolding format_passwd_entry ledger_field is_clean elem
user_formats = refl

twelve : digits 12 ≡ 49 ∷ 50 ∷ []
unfolding digits backward_digits increment reversed
twelve = refl

team_formats : format_group_entry team ≡ some (group_text team)
unfolding format_group_entry all_clean ledger_field is_clean elem
team_formats = refl

member_names : member_texts team.members ≡ true
unfolding member_texts no_comma
member_names = refl

file_formats : format_all (user ∷ []) ≡ some (passwd_text user ∷ [])
unfolding format_all format_passwd_entry ledger_field is_clean elem
file_formats = refl

all_have_names : all_named (user ∷ []) ≡ true
unfolding all_named
all_have_names = refl

read-written_example :
    (read_lines (content (passwd_text user ∷ [])) ≡ passwd_text user ∷ [])
    × (map parse_passwd_line (read_lines (content (passwd_text user ∷ []))) ≡ map some (user ∷ []))
read-written_example = read-written (user ∷ []) (passwd_text user ∷ []) file_formats all_have_names
