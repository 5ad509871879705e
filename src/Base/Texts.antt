-- ===== src/Base/Texts.antt =====
-- Python's operations on texts that the sources use.
use Prim.Native.Nat.{ℕ}
use Prim.Native.Char.{code}
use Prim.Native.String.{String, ◌++◌}
use mathlib.Core.Bool.{Bool, true, false, ◌&&◌, ◌||◌}
use mathlib.Core.Option.{none, some}
use text.Mathlib.Text.{find?}
use admin_infra_proposed.Base.Tests.{leb, ◌=ℕ◌}

-- `s + t`
abbrev pub joined : String → String → String
joined s t = s ++ t

-- `needle in text`
abbrev pub has_text : String → String → Bool
has_text needle text = elim (find? text needle) [ none ↦ false | some _ ↦ true ]

is_space : ℕ → Bool
is_space c = (leb 9 c && leb c 13) || (leb 28 c && leb c 32) || c =ℕ 133 || c =ℕ 160

-- `not text.strip()`, on the spaces below 256.
unfoldable pub is_blank : String → Bool
unfolding is_space
is_blank String.[] = true
is_blank (String.◌∷◌ c s) = is_space (code c) && is_blank s
