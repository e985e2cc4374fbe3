-- ===== src/Tests/Attached.antt =====
-- Examples for the attachments of a node.
use repram.Common.{
  ◌≤◌, ◌≡◌, refl, true, none, some, List, [], ◌∷◌, Str, ◌==◌, js, if◌then◌else◌, str_discrete,
}
use repram.Common.JsMap.{size}
use repram.Tree.{Tree, Hello, Alternative, handle_hello, init}
use repram.Tree.Attach.{
  first_welcome, Attempt, connected, unreachable, welcomed, attach, on_goodbye, on_parent_close,
  on_parent_close-moved,
}
use repram.Tree.Capacity.{Call, calls, size-calls-le, handle_hello_lem}
use repram.Tree.Capacity
use repram.Tests.{alpha, beta, tree_of, open_conns}

abbrev child_hello : Hello
child_hello = record { node_id = js "child"; enclave = js "default" }

abbrev other_hello : Hello
other_hello = record { node_id = js "other"; enclave = js "default" }

abbrev two_hellos : List Call
two_hellos =
    Capacity.hello_from (beta ∷ []) 1 child_hello
    ∷ Capacity.hello_from (beta ∷ []) 2 other_hello
    ∷ []

size-calls-le_example : size (calls alpha (init true 1 open_conns) two_hellos).children ≤ 1
size-calls-le_example = size-calls-le alpha true 1 open_conns two_hellos

abbrev once : Tree
once = (handle_hello (tree_of 4) alpha (beta ∷ []) 1 child_hello).tree

abbrev twice : Tree
twice = (handle_hello once alpha (beta ∷ []) 2 child_hello).tree

abbrev alternative : Str → Alternative
alternative id = record { id = id; address = js "host"; http_port = 8080; enclave = js "default" }

-- The first alternative cannot be reached, the others welcome the node on connection 8.
abbrev network : Alternative → Attempt
network alt = if alt.id == js "down" then unreachable else connected 8 (welcomed alt.id)

abbrev alternatives : List Alternative
alternatives = alternative (js "down") ∷ alternative (js "up") ∷ []

abbrev moved : Tree
moved = on_goodbye (attach (tree_of 0) 7 (welcomed (js "old"))).0 alternatives network

on_parent_close-moved_example :
    (moved.parent ≡ some 8)
    × ((on_parent_close moved 7).parent ≡ none)
    × ((on_parent_close moved 7).conns ≡ moved.conns)
unfolding str_discrete first_welcome
on_parent_close-moved_example =
    on_parent_close-moved (tree_of 0) 7 8 (js "old") alternatives network refl refl
