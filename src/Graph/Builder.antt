-- ===== src/Graph/Builder.antt =====
-- `GraphBuilder` of athanore/graph/builder.py.
pub mod Built
pub mod Decorated
use athanore.Prelude.{
  ℕ, String, Bool, Option, none, some, List, [], ◌∷◌, map, filter, length, ◌==◌, if◌then◌else◌,
}
use athanore.Prelude.Int.{ℤ}
use athanore.Prelude.Dict.{Dict, insert, contains, values}
use athanore.Graph.{duplicate, start_count, Result, ok, raised, ◌>>=◌, Function, Node, Graph}
use athanore.Graph.Signature.{parse_signature}

pub record GraphBuilder : Type 0 where
  pub name : String
  pub nodes : Dict Node

unfoldable pub new_builder : String → GraphBuilder
new_builder name = record { name = name; nodes = [] }

-- The keyword arguments of `GraphBuilder.node`.
pub record NodeOptions : Type 0 where
  pub start : Bool
  pub join : Bool
  pub priority : Option ℤ
  pub retries : Option ℤ
  pub timeout : Option ℕ
  pub label : Option String
  pub description : Option String

-- `given or fallback`: an absent text and the empty one are both false.
abbrev pub or_else : Option String → String → String
or_else none fallback = fallback
or_else (some given) fallback = if given == "" then fallback else given

abbrev pub or_doc : Option String → Option String → Option String
or_doc none doc = doc
or_doc (some given) doc = if given == "" then doc else some given

unfoldable pub make_node : NodeOptions → Function → List String × Option String → Node
make_node o fn (edges, payload_param) = record {
  name = fn.name;
  fn = fn;
  edges = edges;
  payload_param = payload_param;
  start = o.start;
  join = o.join;
  priority = o.priority;
  retries = o.retries;
  timeout = o.timeout;
  label = or_else o.label fn.name;
  description = or_doc o.description fn.doc;
  generation = 0;
}

-- The decorator: the builder it leaves, or what it raises.
unfoldable pub add_node : GraphBuilder → NodeOptions → Function → Result GraphBuilder
unfolding make_node
add_node b o fn = if contains fn.name b.nodes then raised (duplicate fn.name) else do
  parsed ← parse_signature fn
  ok (record b { nodes = insert fn.name (make_node o fn parsed) b.nodes })

-- A workflow's file, from top to bottom: the decorator on each of its functions.
unfoldable pub decorate_all : GraphBuilder → List (NodeOptions × Function) → Result GraphBuilder
unfolding add_node
decorate_all b [] = ok b
decorate_all b ((o, fn) ∷ rest) = do c ← add_node b o fn; decorate_all c rest

-- The names of the nodes that are marked as starts.
abbrev pub starts : Dict Node → List String
starts nodes = map (λ n. n.name) (filter (λ n. n.start) (values nodes))

abbrev only : GraphBuilder → List String → Result Graph
only b (s ∷ []) = ok (record { name = b.name; nodes = b.nodes; start = s })
only b names = raised (start_count b.name (length names))

unfoldable pub build : GraphBuilder → Result Graph
build b = only b (starts b.nodes)
