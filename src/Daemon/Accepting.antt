-- ===== src/Daemon/Accepting.antt =====
-- The socket of cmd/bb_docker_root_fetcher/main.go: the loop that accepts connections, the handlers
-- that it starts, and the goroutine that closes the listener when the daemon is to stop. Steps are
-- what the daemon does by itself, events what happens to it. The atomic counter does not overflow.
pub mod Drained
pub mod Ends
use bb_action_router.Base.{
  Text, codes, same, text_lt, join_with, strip_prefix, trim_prefix, trim_suffix, same_iff,
  same_refl, same_comm, text_lt_asym, text_lt_irrefl, text_lt_trans, text_lt_total,
  text_lt_neg_trans, Text-set, decimal, digits_value, signed, magnitude, atoi, ℤ, pos, negsuc,
  IsDigit, decimal-All, decimal-ne-nil, atoi-decimal, split_slash, add_byte, join-split,
  join-append, lookup, has, put, remove, keys, lookup-nil, lookup-put, lookup-remove,
  length-remove-le, length-put_new, length-remove_lt, IsMap, put-IsMap, remove-IsMap,
  length-remove_present, All-lookup, IsMap-All, assoc_laws, member, without, holds, release_token,
  member-nil, holds-nil, holds-cons, member-cons, member-without, holds-release_token, insert_by,
  sort_by, IsOrdered, OrderingLaws, sort_by-IsOrdered, sort_by-perm, ℕ, zero, suc, ◌+◌, ◌-◌, ◌*◌,
  ◌/◌, ◌%◌, ◌^◌, ◌≤◌, ◌<◌, ◌≡◌, refl, sym, ap, subst, ◌∙◌, fun_ext, ◌≢◌, ◌↔◌, ◌⊎◌, inl, inr, Bool,
  true, false, not, ◌&&◌, ◌||◌, Option, none, some, List, [], ◌∷◌, ◌++◌, map, reverse, Mem, Perm,
  arith, dec_lt, ℕ_discrete, ltb, leb, ◌==◌, if◌then◌else◌, ltb→lt, lt→ltb, ==_iff, Bool-cases,
  Option-cases, length, length-append, filter, length-filter-le, All, All-append, All-filter,
  All-map,
}
use bb_action_router.Status.{Error}

-- The goroutine waits for the context, and then for the count to be 0; it remembers nothing, but
-- the model keeps how many connections had been counted when it saw that.
pub data Shutdown : Type 0 where
  waiting : Shutdown
  drained closed : ℕ → Shutdown

pub data Main : Type 0 where
  accepting : Main
  -- Accept has returned a connection that is not yet counted
  accepted : Main
  returned : Option Error → Main

pub record Loop : Type 0 where
  -- the context is done
  pub stopping : Bool
  pub listening : Bool
  pub in_flight : ℕ
  pub counted : ℕ
  -- connections that are open, named by the order in which they were counted
  pub running : List ℕ
  -- handlers that have closed theirs, and have still to lower the count
  pub ending : ℕ
  pub shutdown : Shutdown
  pub main : Main

unfoldable pub accept_failed : Bool → Error → Option Error
accept_failed stopping e = if stopping then none else some e

pub data Step : Loop → Loop → Type 0 where
  count :
      (s : Loop)
      → s.main ≡ accepted
      → Step s (record s {
        in_flight = s.in_flight + 1;
        counted = s.counted + 1;
        running = s.counted ∷ s.running;
        main = accepting;
      })
  hang_up :
      (s : Loop) (before after : List ℕ) (c : ℕ)
      → s.running ≡ before ++ (c ∷ after)
      → Step s (record s { running = before ++ after; ending = s.ending + 1 })
  uncount :
      (s : Loop) (n : ℕ)
      → s.ending ≡ suc n
      → Step s (record s { ending = n; in_flight = s.in_flight - 1 })
  see_none :
      (s : Loop)
      → s.stopping ≡ true
      → s.shutdown ≡ waiting
      → s.in_flight ≡ 0
      → Step s (record s { shutdown = drained s.counted })
  close :
      (s : Loop) (n : ℕ)
      → s.shutdown ≡ drained n
      → Step s (record s { listening = false; shutdown = closed n })
  -- Accept on a listener that has been closed
  stop_accepting :
      (s : Loop) (e : Error)
      → s.main ≡ accepting
      → s.listening ≡ false
      → Step s (record s { main = returned (accept_failed s.stopping e) })

pub data Event : Loop → Loop → Type 0 where
  cancel : (s : Loop) → Event s (record s { stopping = true })
  connect :
      (s : Loop) → s.main ≡ accepting → s.listening ≡ true → Event s (record s { main = accepted })
  -- Accept fails for another reason; the listener is closed when the function returns
  accept_breaks :
      (s : Loop) (e : Error)
      → s.main ≡ accepting
      → s.listening ≡ true
      → Event s (record s { listening = false; main = returned (accept_failed s.stopping e) })

abbrev pub listening_loop : Loop
listening_loop = record {
  stopping = false;
  listening = true;
  in_flight = 0;
  counted = 0;
  running = [];
  ending = 0;
  shutdown = waiting;
  main = accepting;
}

pub data Reach : Loop → Type 0 where
  here : Reach listening_loop
  by_step : {s u : Loop} → Reach s → Step s u → Reach u
  by_event : {s u : Loop} → Reach s → Event s u → Reach u

-- A number of steps with no event between them.
pub data Steps (s : Loop) : ℕ → Loop → Type 0 where
  none_yet : Steps s zero s
  one_more : {n : ℕ} {t u : Loop} → Steps s n t → Step t u → Steps s (suc n) u
