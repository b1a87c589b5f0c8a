-- ===== src/Examples/Dns.antt =====
-- dns_refresh.go: a run with a second lookup, and one that is closed.
use sink_go.Base.{◌≤◌, ◌+◌, ◌≡◌, refl, true, some, inl}
use sink_go.Dns.{
  Refresher, Pc, start, update_state, take_update, take_timer, close_old, drain, build_ok,
  begin_close, expire, generation, buffered, count_if_empty, close_underlying,
}
use sink_go.Dns.Closing.{Ends, Reachable-Ends}
use sink_go.Dns.Lookups.{Accounted, Reachable-Accounted, attempts-le-elapsed, updates-current}
use sink_go.Dns.Steps.{Reachable, Step, Work, Outside}

-- The first resolver sends an update, and the interval elapses.
abbrev overdue : Refresher
overdue = expire (take_update (update_state start))

overdue-Reachable : Reachable overdue
unfolding update_state take_update expire generation buffered count_if_empty
overdue-Reachable =
    Reachable.next
      (Reachable.next (Reachable.next Reachable.initial (Step.outside (Outside.updates (inl refl))))
        (Step.work (Work.arms 1 refl refl)))
      (Step.outside (Outside.elapses refl))

-- A second resolver takes the place of the first one.
abbrev rebuilt : Refresher
rebuilt = build_ok (drain (close_old (take_timer overdue)))

rebuilt-Reachable : Reachable rebuilt
unfolding update_state take_update expire generation buffered count_if_empty take_timer close_old
    close_underlying drain build_ok
rebuilt-Reachable =
    Reachable.next
      (Reachable.next
        (Reachable.next (Reachable.next overdue-Reachable (Step.work (Work.fires refl refl)))
          (Step.work (Work.closes refl)))
        (Step.work (Work.drains refl)))
      (Step.work (Work.builds refl))

abbrev updated : Refresher
updated = update_state rebuilt

updated-Reachable : Reachable updated
unfolding update_state take_update expire generation buffered count_if_empty take_timer close_old
    close_underlying drain build_ok
updated-Reachable = Reachable.next rebuilt-Reachable (Step.outside (Outside.updates (inl refl)))

updated-waiting : updated.pc ≡ Pc.waiting
unfolding update_state take_update expire generation buffered count_if_empty take_timer close_old
    close_underlying drain build_ok
updated-waiting = refl

updated-some : updated.updates ≡ some 2
unfolding update_state take_update expire generation buffered count_if_empty take_timer close_old
    close_underlying drain build_ok
updated-some = refl

abbrev closing : Refresher
closing = begin_close updated

closing-Reachable : Reachable closing
unfolding update_state take_update expire generation buffered count_if_empty take_timer close_old
    close_underlying drain build_ok
closing-Reachable = Reachable.next updated-Reachable (Step.outside (Outside.closed refl))

closing-stop : closing.stop ≡ true
unfolding begin_close
closing-stop = refl

Reachable-Accounted_example : Accounted closing
Reachable-Accounted_example = Reachable-Accounted closing-Reachable

attempts-le-elapsed_example :
    (updated.attempts ≤ 1 + updated.elapsed) × (updated.elapsed ≤ updated.accepted + updated.failed)
attempts-le-elapsed_example = attempts-le-elapsed updated-Reachable

updates-current_example : 2 ≡ updated.attempts
updates-current_example = updates-current 2 updated-Reachable updated-waiting updated-some

Reachable-Ends_example : Ends closing
Reachable-Ends_example = Reachable-Ends closing closing-Reachable closing-stop
