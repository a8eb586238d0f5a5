-- ===== src/Inotify/Tests.antt =====
-- A directory "d" is created in "/t" and seen in one read, a file is opened in a second; and the first
-- watch number that the table has no place for.
use cse522s.Base.{◌+◌, ℕ, ◌≡◌, refl, List, [], ◌∷◌, map, arith, All, pos}
use cse522s.Inotify.{
  System, Flag, in_access, in_modify, in_attrib, in_close_write, in_close_nowrite, in_open,
  in_moved_from, in_moved_to, in_delete, in_delete_self, in_move_self, in_create, Event, State,
  overflown, returned, added, watch_reads,
}
use cse522s.Inotify.Events.{buffer, IsEvent, handle_events, concat, watch_reads-events}

abbrev bit : Flag → ℕ
bit in_access = 0x1
bit in_modify = 0x2
bit in_attrib = 0x4
bit in_close_write = 0x8
bit in_close_nowrite = 0x10
bit in_open = 0x20
bit in_moved_from = 0x40
bit in_moved_to = 0x80
bit in_delete = 0x200
bit in_delete_self = 0x400
bit in_move_self = 0x800
bit in_create = 0x100

abbrev system : System
system = record { bit = bit; isdir_bit = 0x40000000; add_watch = λ call path. pos (call + 2) }

abbrev created : Event
created = record { wd = 1; mask = 0x40000100; cookie = 0; name = 100 ∷ 0 ∷ 0 ∷ 0 ∷ [] }

abbrev opened : Event
opened = record { wd = 2; mask = 0x20; cookie = 0; name = [] }

abbrev reads : List (List Event)
reads = (created ∷ []) ∷ (opened ∷ []) ∷ []

abbrev start : State
start = record { wds = λ k. 47 ∷ 116 ∷ []; calls = 0 }

events_small : All (All IsEvent) reads
events_small = omega arith

watch_reads-events_example :
    watch_reads system (map buffer reads) start ≡ handle_events system (concat reads) start
watch_reads-events_example = watch_reads-events system reads start events_small

-- The number 256 passes the test but has no entry; 257 is refused.
last_watch : (added start [] (pos 256)).outcome ≡ overflown
unfolding added
last_watch = refl

refused_watch : (added start [] (pos 257)).outcome ≡ returned (pos 0)
unfolding added
refused_watch = refl
