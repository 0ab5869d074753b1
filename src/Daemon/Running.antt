-- ===== src/Daemon/Running.antt =====
-- main of cmd/bb_docker_root_fetcher/main.go once it listens: the loop that accepts connections,
-- their handlers, PrefetchImages and the server, as they interleave. A connection has one call of
-- Acquire, and PrefetchImages has one for each image.
pub mod Released
use bb_action_router.Base.{
  Text, codes, same, text_lt, join_with, strip_prefix, trim_prefix, trim_suffix, same_iff,
  same_refl, same_comm, text_lt_asym, text_lt_irrefl, text_lt_trans, text_lt_total,
  text_lt_neg_trans, Text-set, decimal, digits_value, signed, magnitude, atoi, ℤ, pos, negsuc,
  IsDigit, decimal-All, decimal-ne-nil, atoi-decimal, split_slash, add_byte, join-split,
  join-append, lookup, has, put, remove, keys, lookup-nil, lookup-put, lookup-remove,
  length-remove-le, length-put_new, length-remove_lt, IsMap, put-IsMap, remove-IsMap,
  length-remove_present, All-lookup, IsMap-All, assoc_laws, member, without, holds, release_token,
  member-nil, holds-nil, holds-cons, member-cons, member-without, holds-release_token, insert_by,
  sort_by, IsOrdered, OrderingLaws, sort_by-IsOrdered, sort_by-perm, ℕ, zero, suc, ◌+◌, ◌-◌, ◌*◌,
  ◌/◌, ◌%◌, ◌^◌, ◌≤◌, ◌<◌, ◌≡◌, refl, sym, ap, subst, ◌∙◌, fun_ext, ◌≢◌, ◌↔◌, ◌⊎◌, inl, inr, Bool,
  true, false, not, ◌&&◌, ◌||◌, Option, none, some, List, [], ◌∷◌, ◌++◌, map, reverse, Mem, Perm,
  arith, dec_lt, ℕ_discrete, ltb, leb, ◌==◌, if◌then◌else◌, ltb→lt, lt→ltb, ==_iff, Bool-cases,
  Option-cases, length, length-append, filter, length-filter-le, All, All-append, All-filter,
  All-map,
}
use bb_action_router.Fetcher.Server.{Server}
use bb_action_router.Fetcher.System.{
  Phase, idle, waiting, fetching, materialized, fetched, leased, released, failed, System, hit,
  miss, begin_fetch, materialize_fails, materialize_leaves, materialize, install, share,
  share_failure, attach, let_go, reap_trash, reap_doomed, init,
}
use bb_action_router.Fetcher.System
use bb_action_router.Daemon.Accepting.{
  Loop, count, hang_up, uncount, see_none, close, stop_accepting, listening_loop,
}
use bb_action_router.Daemon.Accepting

pub record Daemon : Type 0 where
  pub loop : Loop
  pub system : System

-- The call of a connection, by the order in which it was counted, and that of an image to prefetch.
abbrev pub call : ℕ → ℕ
call c = 2 * c

abbrev pub prefetch_call : ℕ → ℕ
prefetch_call k = 2 * k + 1

-- Whose call takes a step; the reapers are no call.
unfoldable pub caller : {s u : System} → System.Step s u → Option ℕ
caller (hit s t ref p now e got) = some t
caller (miss s t ref now e got) = some t
caller (begin_fetch s t ref e room) = some t
caller (materialize_fails s t ref e) = some t
caller (materialize_leaves s t ref path e absent) = some t
caller (materialize s t ref path e absent) = some t
caller (install s t ref path renamed now e) = some t
caller (share s t ref p e flown) = some t
caller (share_failure s t ref e) = some t
caller (attach s t ref p now e) = some t
caller (let_go s t ref p now e) = some t
caller (reap_trash s removed seq) = none
caller (reap_doomed s removed path) = none

-- A connection's call takes its steps while its handler runs.
abbrev pub MayRun : Loop → Option ℕ → Type 0
MayRun l none = Unit {0}
MayRun l (some t) =
    ((k : ℕ) × (t ≡ prefetch_call k)) ⊎ ((c : ℕ) × (t ≡ call c) × (holds c l.running ≡ true))

-- The handler returns when it has asked for nothing, when Acquire has failed, or when the deferred
-- release has run.
abbrev pub HasEnded : Phase → Type 0
HasEnded idle = Unit {0}
HasEnded failed = Unit {0}
HasEnded (released ref p) = Unit {0}
HasEnded _ = ⊥

unfoldable pub ending_connection : {l m : Loop} → Accepting.Step l m → Option ℕ
ending_connection (hang_up l before after c e) = some c
ending_connection (count l e) = none
ending_connection (uncount l n e) = none
ending_connection (see_none l stop w e) = none
ending_connection (close l n e) = none
ending_connection (stop_accepting l e m shut) = none

abbrev pub MayEnd : System → Option ℕ → Type 0
MayEnd s none = Unit {0}
MayEnd s (some c) = HasEnded (s.phase (call c))

pub data Turn : Daemon → Daemon → Type 0 where
  of_loop :
      (d : Daemon) (m : Loop) (st : Accepting.Step d.loop m)
      → MayEnd d.system (ending_connection st)
      → Turn d (record d { loop = m })
  of_event : (d : Daemon) (m : Loop) → Accepting.Event d.loop m → Turn d (record d { loop = m })
  of_call :
      (d : Daemon) (u : System) (st : System.Step d.system u)
      → MayRun d.loop (caller st)
      → Turn d (record d { system = u })

pub data Run (server : Server) : Daemon → Type 0 where
  started : Run server (record { loop = listening_loop; system = init server })
  turned : {d e : Daemon} → Run server d → Turn d e → Run server e
