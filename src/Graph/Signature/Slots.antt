-- ===== src/Graph/Signature/Slots.antt =====
-- What `parse_signature` of athanore/graph/builder.py makes of a signature, said without its loop.
use mathlib.Core.List.{append_assoc, append-nil}
use athanore.Prelude.{
  ◌≡◌, String, Bool, true, false, not, ◌||◌, Option, none, some, List, [], ◌∷◌, ◌++◌, map, filter,
  arith, if◌then◌else◌,
}
use athanore.Graph.{
  ok, raised, variadic, Kind, positional_only, positional_or_keyword, var_positional, var_keyword,
  Param, Function,
}
use athanore.Graph.Signature.{
  any_positional_only, keep_first, scan_param, scan_params, parse_signature,
}

abbrev pub is_variadic : Kind → Bool
is_variadic var_positional = true
is_variadic var_keyword = true
is_variadic _ = false

abbrev pub any_variadic : List Param → Bool
any_variadic [] = false
any_variadic (p ∷ ps) = is_variadic p.kind || any_variadic ps

-- Where some parameter stands before a `/`, those alone are edges; else all positional ones are.
abbrev pub is_edge : Bool → Kind → Bool
is_edge has_po positional_only = true
is_edge has_po positional_or_keyword = not has_po
is_edge has_po _ = false

abbrev pub names : List Param → List String
names = map (λ p. p.name)

abbrev pub first : List String → Option String
first [] = none
first (x ∷ xs) = some x

abbrev or_first : Option String → List String → Option String
or_first none xs = first xs
or_first (some x) xs = some x

abbrev pub edge_names : Bool → List Param → List String
edge_names po ps = names (filter (λ p. is_edge po p.kind) ps)

abbrev pub slot_names : Bool → List Param → List String
slot_names po ps = names (filter (λ p. not (is_edge po p.kind)) ps)

scan_params_lem :
    (fn : Function) (po : Bool) (ps : List Param) (edges : List String) (payload : Option String)
    → scan_params fn po ps (edges, payload) ≡ (
        if any_variadic ps
        then raised (variadic fn.name)
        else ok (edges ++ edge_names po ps, or_first payload (slot_names po ps)))
unfolding scan_params scan_param
scan_params_lem fn po [] edges none = ground (arith, append-nil edges)
scan_params_lem fn po [] edges (some x) = ground (arith, append-nil edges)
scan_params_lem fn po (p ∷ ps) edges payload = ground (
  arith,
  scan_params_lem fn po ps edges payload,
  scan_params_lem fn po ps (edges ++ p.name ∷ []) payload,
  scan_params_lem fn po ps edges (keep_first payload p.name),
  append_assoc edges (p.name ∷ []) (edge_names po ps),
)

-- A signature with `*args` or `**kwargs` is refused. Of any other, the edges are the parameters
-- before the `/`, or all positional ones where there is no `/`, in order, and the payload slot is
-- the first of the remaining parameters.
pub parse_signature_slots :
    (fn : Function)
    → let po = any_positional_only fn.params in
      parse_signature fn ≡ (
        if any_variadic fn.params
        then raised (variadic fn.name)
        else ok (edge_names po fn.params, first (slot_names po fn.params)))
unfolding parse_signature
parse_signature_slots fn = scan_params_lem fn (any_positional_only fn.params) fn.params [] none
