-- ===== src/StateBackend/Sessions/Buffers.antt =====
-- What the buffers of src/core/state/local-backend.ts keep.
use mathlib.Core.List.{append_assoc, append-nil}
use text.Mathlib.TextPositions.{eq_refl}
use chris_tencent_db_agent_m.Prelude.{
  ◌≡◌, sym, ◌∙◌, String, List, [], ◌∷◌, ◌++◌, arith, eq_iff, str_eq, if◌then◌else◌,
}
use chris_tencent_db_agent_m.Prelude.Maps.{get-set, get-delete}
use chris_tencent_db_agent_m.StateBackend.State.{Backend, k}
use chris_tencent_db_agent_m.StateBackend.Sessions.{buffer_at, append_buffer, drained, drain_buffer}

unfoldable pub append_all : String → String → List String → Backend → Backend
append_all i s [] b = b
append_all i s (m ∷ ms) b = append_all i s ms (append_buffer i s m b)

pub buffer_at-append :
    (i s m key : String) (b : Backend)
    → buffer_at (append_buffer i s m b) key
      ≡ (if str_eq (k i s) key then buffer_at b key ++ (m ∷ []) else buffer_at b key)
unfolding buffer_at append_buffer
buffer_at-append i s m key b =
    ground
      (arith, get-set b.buffers (k i s) key (buffer_at b (k i s) ++ (m ∷ [])), eq_iff (k i s) key)

drain-buffer_at :
    (i s : String) (b : Backend)
    → ((drain_buffer i s b).1 ≡ buffer_at b (k i s))
      × (buffer_at (drain_buffer i s b).0 (k i s) ≡ [])
unfolding drain_buffer drained buffer_at
drain-buffer_at i s b =
    (ground arith, ground (arith, get-delete b.buffers (k i s) (k i s), eq_refl (k i s)))

buffer_at-append_all :
    (i s : String) (ms : List String) (b : Backend)
    → buffer_at (append_all i s ms b) (k i s) ≡ buffer_at b (k i s) ++ ms
unfolding append_all
buffer_at-append_all i s [] b = sym (append-nil (buffer_at b (k i s)))
buffer_at-append_all i s (m ∷ ms) b = ground (
  arith,
  buffer_at-append_all i s ms (append_buffer i s m b),
  buffer_at-append i s m (k i s) b,
  eq_refl (k i s),
  append_assoc (buffer_at b (k i s)) (m ∷ []) ms,
)

-- Draining a session's buffer after a list of messages is appended to it gives what it held
-- followed by those messages in order, and leaves it empty.
drain-append_all :
    (i s : String) (ms : List String) (b : Backend)
    → let (b', messages) = drain_buffer i s (append_all i s ms b) in
      (messages ≡ buffer_at b (k i s) ++ ms) × (buffer_at b' (k i s) ≡ [])
drain-append_all i s ms b =
    let d = drain-buffer_at i s (append_all i s ms b) in (d.0 ∙ buffer_at-append_all i s ms b, d.1)
