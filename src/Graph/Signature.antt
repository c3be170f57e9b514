-- ===== src/Graph/Signature.antt =====
-- `parse_signature` of athanore/graph/builder.py.
pub mod Slots
use athanore.Prelude.{
  String, Bool, true, false, ◌||◌, Option, none, some, List, [], ◌∷◌, ◌++◌, if◌then◌else◌,
}
use athanore.Graph.{
  variadic, Result, ok, raised, Kind, positional_only, positional_or_keyword, var_positional,
  keyword_only, var_keyword, Param, Function,
}

abbrev pub is_positional_only : Kind → Bool
is_positional_only positional_only = true
is_positional_only _ = false

-- any(p.kind is POSITIONAL_ONLY for p in params)
pub any_positional_only : List Param → Bool
any_positional_only [] = false
any_positional_only (p ∷ ps) = is_positional_only p.kind || any_positional_only ps

-- if payload_param is None: payload_param = param.name
abbrev keep_first : Option String → String → Option String
keep_first none name = some name
keep_first (some old) name = some old

-- The body of the loop, by the parameter's kind.
scan_param :
    Function
    → Bool
    → Kind
    → String
    → List String × Option String
    → Result (List String × Option String)
scan_param fn has_po positional_only name (edges, payload) = ok (edges ++ name ∷ [], payload)
scan_param fn has_po positional_or_keyword name (edges, payload) =
    if has_po then ok (edges, keep_first payload name) else ok (edges ++ name ∷ [], payload)
scan_param fn has_po keyword_only name (edges, payload) = ok (edges, keep_first payload name)
scan_param fn has_po var_positional name acc = raised (variadic fn.name)
scan_param fn has_po var_keyword name acc = raised (variadic fn.name)

scan_params :
    Function
    → Bool
    → List Param
    → List String × Option String
    → Result (List String × Option String)
scan_params fn has_po [] acc = ok acc
scan_params fn has_po (p ∷ ps) acc = elim (scan_param fn has_po p.kind p.name acc) [
  | ok acc' ↦ scan_params fn has_po ps acc'
  | raised e ↦ raised e
]

unfoldable pub parse_signature : Function → Result (List String × Option String)
unfolding any_positional_only scan_param scan_params
parse_signature fn = scan_params fn (any_positional_only fn.params) fn.params ([], none)
