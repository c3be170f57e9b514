-- ===== src/Graph/Examples.antt =====
-- The workflow of the README, built, finalized and refused, and the theorems of the graph at it.
use athanore.Prelude.{◌≡◌, refl, ◌↔◌, String, Bool, true, false, none, some, List, [], ◌∷◌}
use athanore.Prelude.Dict.{lookup, insert}
use athanore.Graph.{
  unknown_edge, duplicate, ok, raised, positional_or_keyword, keyword_only, positional_only,
  Function, Graph,
}
use athanore.Graph.Signature.{parse_signature}
use athanore.Graph.Signature.Slots.{parse_signature_slots}
use athanore.Graph.Builder.{
  GraphBuilder, new_builder, NodeOptions, make_node, add_node, decorate_all, build,
}
use athanore.Graph.Builder.Built.{Built, empty, added}
use athanore.Graph.Builder.Decorated.{IsDecorated, decorate_all_iff}
use athanore.Graph.Validate.{
  finalize, check_edges, check_joins, generations_of, finish, matches_name,
}
use athanore.Graph.Validate.Outcome.{IsValid, IsFinal, is_graph_error}
use athanore.Graph.Validate.Correct.{finalize_accepts, finalize-IsFinal, finalize_raises}

abbrev options : Bool → NodeOptions
options start = record {
  start = start;
  join = false;
  priority = none;
  retries = none;
  timeout = none;
  label = none;
  description = none;
}

-- async def greet(shout)
abbrev greet : Function
greet = record {
  name = "greet";
  params = record { name = "shout"; kind = positional_or_keyword } ∷ [];
  doc = none;
}

-- async def shout(*, name)
abbrev shout : Function
shout = record {
  name = "shout";
  params = record { name = "name"; kind = keyword_only } ∷ [];
  doc = none;
}

abbrev with_greet : GraphBuilder
with_greet = record {
  name = "hello";
  nodes = ("greet", make_node (options true) greet ("shout" ∷ [], none)) ∷ [];
}

abbrev hello : GraphBuilder
hello = record {
  name = "hello";
  nodes =
      ("greet", make_node (options true) greet ("shout" ∷ [], none))
      ∷ ("shout", make_node (options false) shout ([], some "name"))
      ∷ [];
}

hello-Built : Built "hello" hello
unfolding add_node new_builder parse_signature insert lookup
hello-Built =
    added (options false) shout (added {c = with_greet} (options true) greet empty refl) refl

abbrev frozen : Graph
frozen = record {
  name = "hello";
  nodes =
      ("greet", make_node (options true) greet ("shout" ∷ [], none))
      ∷ ("shout", record (make_node (options false) shout ([], some "name")) { generation = 1 })
      ∷ [];
  start = "greet";
}

finalize-hello : finalize hello ≡ ok frozen
unfolding finalize build check_edges check_joins generations_of finish matches_name lookup insert
    make_node
finalize-hello = refl

-- An edge to a node that was never declared, and a node that nothing leads to.
finalize-with_greet : finalize with_greet ≡ raised (unknown_edge "greet" "shout")
unfolding finalize build check_edges check_joins generations_of finish matches_name lookup make_node
finalize-with_greet = refl

with_greet-Built : Built "hello" with_greet
unfolding add_node new_builder parse_signature insert lookup
with_greet-Built = added (options true) greet empty refl

finalize_accepts_example :
    ((g : Graph) × (finalize hello ≡ ok g)) ↔ ((s : String) × IsValid hello s)
finalize_accepts_example = finalize_accepts hello hello-Built

finalize-IsFinal_example : IsFinal hello frozen
finalize-IsFinal_example = finalize-IsFinal hello frozen hello-Built finalize-hello

finalize_raises_example : is_graph_error (unknown_edge "greet" "shout") ≡ true
finalize_raises_example =
    finalize_raises with_greet (unknown_edge "greet" "shout") with_greet-Built finalize-with_greet

abbrev slashed : Function
slashed = record {
  name = "f";
  params =
      record { name = "qa"; kind = positional_only }
      ∷ record { name = "report"; kind = positional_or_keyword }
      ∷ [];
  doc = none;
}

-- A positional-only parameter makes the ones behind the slash no edges.
parse_signature_slots_example : parse_signature slashed ≡ ok ("qa" ∷ [], some "report")
unfolding parse_signature
parse_signature_slots_example = parse_signature_slots slashed

abbrev hello_functions : List (NodeOptions × Function)
hello_functions = (options true, greet) ∷ (options false, shout) ∷ []

decorate_all_iff_example :
    (decorate_all (new_builder "hello") hello_functions ≡ ok hello)
    ↔ ((hello.name ≡ "hello") × IsDecorated hello_functions hello.nodes)
decorate_all_iff_example = decorate_all_iff "hello" hello_functions hello

-- A second function of one name is refused.
greet_twice :
    decorate_all (new_builder "hello") ((options true, greet) ∷ (options false, greet) ∷ [])
    ≡ raised (duplicate "greet")
unfolding decorate_all add_node new_builder parse_signature insert lookup
greet_twice = refl
