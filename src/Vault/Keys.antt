-- ===== src/Vault/Keys.antt =====
-- vault/app.py: `_parse_id`, and the texts of connection keys.
use islands_kernel.Base.{
  ℕ, String, ◌<>◌, ◌≡◌, refl, Bool, false, ◌&&◌, Option, none, some, leb, sym, ◌∙◌, ap,
}
use mathlib.Core.Option.{some-injective}
use islands_kernel.Base.Split.{split_first, has_separator, split_first-append}
use islands_kernel.Vault.Model.{ConnKey, as_str}

-- `c == "/"`
unfoldable pub is_slash : ℕ → Bool
is_slash c = leb c b'/' && leb b'/' c

-- `org, provider, account = unquote(conn_id).split("/", 2)`, which raises where there are not two
-- slashes.
unfoldable pub parse_id : (String → String) → String → Option ConnKey
parse_id unquote conn_id = elim (split_first is_slash (unquote conn_id)) [
  | none ↦ none
  | some p ↦ elim (split_first is_slash p.1) [
    | none ↦ none
    | some q ↦ some (record { org = p.0; provider = q.0; account = q.1 })
  ]
]

-- The org and the provider are names without a slash.
abbrev pub IsPlain : ConnKey → Type 0
IsPlain key =
    (has_separator is_slash key.org ≡ false) × (has_separator is_slash key.provider ≡ false)

-- The text of a key whose org and provider have no slash, quoted for a URL, names that key.
pub parse_id-as_str :
    (quote unquote : String → String) (key : ConnKey)
    → unquote (quote (as_str key)) ≡ as_str key
    → IsPlain key
    → parse_id unquote (quote (as_str key)) ≡ some key
unfolding parse_id as_str is_slash
parse_id-as_str quote unquote key same (plain, plain') =
    rw
      (
        parse_id,
        same,
        split_first-append is_slash key.org _ (key.provider <> ("/" <> key.account)) refl plain,
        split_first-append is_slash key.provider _ key.account refl plain',
      )
      refl

-- Such keys have different texts.
pub as_str-injective : (j k : ConnKey) → IsPlain j → IsPlain k → as_str j ≡ as_str k → j ≡ k
as_str-injective j k u v same = some-injective j k (
    sym (parse_id-as_str (λ t. t) (λ t. t) j refl u)
    ∙ (ap (parse_id (λ t. t)) same ∙ parse_id-as_str (λ t. t) (λ t. t) k refl v))
