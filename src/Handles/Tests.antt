-- ===== src/Handles/Tests.antt =====
-- Handles in full, and the theorems at them.
use conference_go_client.Common.{ℕ, ◌≡◌, refl, pos, negsuc, some, List, [], ◌∷◌}
use conference_go_client.Handles.{
  client, track, Api, fetched, get, wrap, cfgo_client_ref, cfgo_client_unref,
}
use conference_go_client.Handles.Cells.{Cell, refs, unrefs, cell_run, Holds}
use conference_go_client.Handles.Calls.{Call, creates, counts, calls, own, created-Holds}

-- One client, one handle, its reference given back.
abbrev empty : Api ℕ
empty = record { tables = λ k. record { objects = []; refs = [] }; last_handle = 0 }

abbrev some_calls : List (Call ℕ)
some_calls =
    counts client refs 1
    ∷ creates track 9
    ∷ counts track unrefs 2
    ∷ counts client unrefs 1
    ∷ counts client unrefs 1
    ∷ []

abbrev released : Api ℕ
released = calls some_calls (wrap client 7 empty).0

-- The C functions on a handle that was never created, and on one that was.
unknown_client : (cfgo_client_ref 5 empty).1 ≡ negsuc 0
unfolding cfgo_client_ref
unknown_client = refl

known_client : (cfgo_client_unref 1 (wrap client 7 empty).0).1 ≡ pos 0
unfolding cfgo_client_unref wrap
known_client = refl

created-Holds_example :
    let r = wrap client 7 empty in
    let start : Cell ℕ = record { object = some 7; count = pos 1 } in
    let end = cell_run (own client r.1 some_calls) start in
    let b = calls some_calls r.0 in
    Holds r.1 (b.tables client) end × (get client r.1 b ≡ fetched end.object)
created-Holds_example = created-Holds client 7 some_calls empty
