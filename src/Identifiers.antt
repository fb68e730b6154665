-- ===== src/Identifiers.antt =====
-- identifiers.py: canonical names of repositories and issues, with the part of `urllib.parse.urlparse`
-- that it uses. Texts are ASCII.
use agent_workflow_superviso.Prelude.{
  ℕ, String, ◌<>◌, ◌≡◌, refl, Bool, true, false, not, ◌&&◌, ◌||◌, Option, none, some, List, [], ◌∷◌,
}
use agent_workflow_superviso.Prelude.{
  if◌then◌else◌, ◌==◌, ◌!=◌, contains, option_eq, string_eq, nat_eq, leb,
}
use agent_workflow_superviso.Prelude.Text
use agent_workflow_superviso.Result.{value_error, Result, ok, err}
use agent_workflow_superviso.Models.{verdict_eq}
use Prim.Native.Char.{Char, code}
use text.Mathlib.Text.{starts_with}

-- `s.partition(c)` where `c` occurs: what stands before its first occurrence and behind it.
unfoldable pub partition : ℕ → String → Option (String × String)
partition c String.[] = none
partition c (String.◌∷◌ d s) =
    let rest = partition c s in
    if code d == c
    then some ("", s)
    else elim rest [ none ↦ none | some (a, b) ↦ some (String.◌∷◌ d a, b) ]

-- `s.split(c)`
unfoldable pub split : ℕ → String → List String
split c String.[] = "" ∷ []
split c (String.◌∷◌ d s) =
    let rest = split c s in
    if code d == c
    then "" ∷ rest
    else elim rest [ [] ↦ String.◌∷◌ d "" ∷ [] | x ∷ xs ↦ String.◌∷◌ d x ∷ xs ]

-- The text before the first of the characters `p`, and the rest from there on.
unfoldable pub span : (Char → Bool) → String → String × String
span p String.[] = ("", "")
span p (String.◌∷◌ d s) =
    let (a, b) = span p s in if p d then (String.◌∷◌ d a, b) else ("", String.◌∷◌ d s)

-- `t in s`
unfoldable pub occurs : String → String → Bool
occurs t String.[] = starts_with "" t
occurs t (String.◌∷◌ d s) = let rest = occurs t s in starts_with (String.◌∷◌ d s) t || rest

-- What stands behind a prefix.
unfoldable pub drop_prefix : String → String → Option String
drop_prefix String.[] s = some s
drop_prefix (String.◌∷◌ c p) String.[] = none
drop_prefix (String.◌∷◌ c p) (String.◌∷◌ d s) =
    let rest = drop_prefix p s in if code c == code d then rest else none

-- `re.fullmatch(r"\d+", s)`
unfoldable pub is_number : String → Bool
unfolding Text.all_chars Text.is_digit
is_number s = s != "" && Text.all_chars Text.is_digit s

-- `str(int(s))`
unfoldable pub decimal : String → String
unfolding Text.str Text.int_from
decimal s = Text.str (Text.int_from 0 s)

-- `[^/#\s]+`, or `[^/\s]+` and the like: not empty, and none of `stops`
unfoldable pub is_token : List ℕ → String → Bool
unfolding Text.all_chars Text.is_space
is_token stops s =
    s != "" && Text.all_chars (λ c. not (contains stops (code c)) && not (Text.is_space c)) s

unfoldable pub is_slash : Char → Bool
is_slash c = code c == b'/'

unfoldable pub strip_slashes : String → String
unfolding Text.strip_by is_slash
strip_slashes = Text.strip_by is_slash

pub record ParsedUrl : Type 0 where
  pub hostname : Option String
  pub path : String
  pub params : String
  pub query : String
  pub fragment : String

is_alpha : Char → Bool
is_alpha c = (leb b'a' (code c) && leb (code c) b'z') || (leb b'A' (code c) && leb (code c) b'Z')

is_scheme_char : Char → Bool
unfolding is_alpha Text.is_digit
is_scheme_char c = is_alpha c || Text.is_digit c || contains (b'+' ∷ b'-' ∷ b'.' ∷ []) (code c)

starts_alpha : String → Bool
unfolding is_alpha
starts_alpha String.[] = false
starts_alpha (String.◌∷◌ c s) = is_alpha c

-- The scheme in lower case, and the rest; an odd scheme stays in the rest.
split_scheme : String → String × String
unfolding partition starts_alpha is_scheme_char Text.all_chars
split_scheme url = elim (partition b':' url) [
  | none ↦ ("", url)
  | some (scheme, rest) ↦
      if starts_alpha scheme && Text.all_chars is_scheme_char scheme
      then (Text.casefold scheme, rest)
      else ("", url)
]

-- The network location and the rest.
split_netloc : String → String × String
unfolding span drop_prefix
split_netloc url = elim (drop_prefix "//" url) [
  | none ↦ ("", url)
  | some rest ↦ span (λ c. not (contains (b'/' ∷ b'?' ∷ b'#' ∷ []) (code c))) rest
]

cut : ℕ → String → String × String
unfolding partition
cut c s = elim (partition c s) [ none ↦ (s, "") | some parts ↦ parts ]

-- What stands behind the last `c`, or all.
after_last : ℕ → String → String
after_last c String.[] = ""
after_last c (String.◌∷◌ d s) =
    let rest = after_last c s in
    let whole : String = elim (partition c s) [ none ↦ String.◌∷◌ d s | some _ ↦ rest ] in
    if code d == c then rest else whole

uses_params : List String
uses_params =
    "" ∷ "ftp" ∷ "hdl" ∷ "prospero" ∷ "http" ∷ "https" ∷ "shttp" ∷ "rtsp" ∷ "rtsps" ∷ "rtspu"
    ∷ "sip" ∷ "sips" ∷ "mms" ∷ "sftp" ∷ "tel" ∷ []

-- The parameters of the last path segment; only whether there are any is asked.
params_of : String → String → String
unfolding cut after_last uses_params
params_of scheme path =
    if contains uses_params scheme then (cut b';' (after_last b'/' path)).1 else ""

-- `hostname` of a network location with no bracketed address
host_of : String → Option String
unfolding cut after_last
host_of netloc =
    let host = (cut b':' (after_last b'@' netloc)).0 in
    if host == "" then none else some (Text.casefold host)

unfoldable pub urlparse : String → ParsedUrl
unfolding split_scheme split_netloc cut params_of host_of
urlparse url =
    let (scheme, rest) = split_scheme url in
    let (netloc, tail) = split_netloc rest in
    let (no_fragment, fragment) = cut b'#' tail in
    let (path, query) = cut b'?' no_fragment in
    record {
      hostname = host_of netloc;
      path = path;
      params = params_of scheme path;
      query = query;
      fragment = fragment;
    }

-- `parsed.params or parsed.query or parsed.fragment` is empty
unfoldable pub is_plain : ParsedUrl → Bool
is_plain parsed = parsed.params == "" && parsed.query == "" && parsed.fragment == ""

-- The groups of `([^/#\s]+/[^/#\s]+)#(\d+)`.
unfoldable pub qualified_groups : String → Option (String × String)
unfolding partition is_token is_number
qualified_groups s = elim (partition b'#' s) [
  | none ↦ none
  | some (repository, number) ↦ elim (partition b'/' repository) [
    | none ↦ none
    | some (owner, name) ↦
        if is_token (b'/' ∷ b'#' ∷ []) owner && is_token (b'/' ∷ b'#' ∷ []) name && is_number number
        then some (repository, number)
        else none
  ]
]

-- The same behind `(?:github:)?`, which is tried with the prefix first.
unfoldable pub qualified : String → Option (String × String)
unfolding drop_prefix qualified_groups
qualified raw =
    let bare = qualified_groups raw in
    elim (drop_prefix "github:" (Text.casefold raw)) [
      | none ↦ bare
      | some folded ↦ elim (qualified_groups folded) [ none ↦ bare | some groups ↦ some groups ]
    ]

-- The candidate repository and the number of an issue URL.
unfoldable pub issue_url : String → Option (String × String)
unfolding occurs urlparse split strip_slashes is_number is_plain
issue_url raw =
    if not (occurs "://" raw)
    then none
    else let parsed = urlparse raw in
      elim (split b'/' (strip_slashes parsed.path)) [
        | owner ∷ name ∷ kind ∷ number ∷ [] ↦
            if parsed.hostname == some "github.com"
              && kind == "issues"
              && is_number number
              && is_plain parsed
            then some (owner <> "/" <> name, number)
            else none
        | _ ↦ none
      ]

-- A reference to an issue of the repository `candidate`.
unfoldable pub in_repository : String → Bool → String → String → Result String
unfolding decimal
in_repository repository strict candidate digits =
    if candidate == repository
    then ok (decimal digits)
    else if strict
    then err value_error
    else ok ("github:" <> (candidate <> ("#" <> decimal digits)))

unfoldable pub canonical_github_issue_id : String → String → Bool → Result String
unfolding drop_prefix
canonical_github_issue_id value repository strict =
    let raw = Text.strip value in
    let expected_repository = Text.casefold (strip_slashes repository) in
    let number_sign : Option String = elim (drop_prefix "#" raw) [
      | none ↦ none
      | some digits ↦ if is_number digits then some digits else none
    ] in
    if is_number raw then ok (decimal raw) else elim number_sign [
      | some digits ↦ ok (decimal digits)
      | none ↦ elim (qualified raw) [
        | some (candidate, number) ↦
            in_repository expected_repository strict (Text.casefold candidate) number
        | none ↦ elim (issue_url raw) [
          | some (candidate, number) ↦
              in_repository expected_repository strict (Text.casefold candidate) number
          | none ↦ if strict then err value_error else ok raw
        ]
      ]
    ]

test_issue_ids :
    (canonical_github_issue_id " 007 " "o/r" true ≡ ok "7")
    × (canonical_github_issue_id "#12" "o/r" true ≡ ok "12")
    × (canonical_github_issue_id "GitHub:O/R#3" "o/r" true ≡ ok "3")
    × (canonical_github_issue_id "x/r#3" "o/r" false ≡ ok "github:x/r#3")
    × (canonical_github_issue_id "https://github.com/O/R/issues/9" "o/r" true ≡ ok "9")
    × (canonical_github_issue_id "https://github.com/O/R/pull/9" "o/r" true ≡ err value_error)
unfolding canonical_github_issue_id in_repository qualified issue_url is_number Text.strip
    Text.casefold decimal option_eq string_eq nat_eq strip_slashes
test_issue_ids = (refl, refl, refl, refl, refl, refl)
