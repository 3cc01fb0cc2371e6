-- ===== src/Tracer/Pcs.antt =====
-- Tools/insList.cpp: the pcs in the trace file of a thread, against when the tool is to print.
use mmt_sync.Base.{ℕ, ◌+◌, ◌%◌, List, [], ◌∷◌, ◌++◌, false, not, ◌&&◌, ◌==◌, if◌then◌else◌}
use mmt_sync.Tracer.Defs.{Tracer}
use mmt_sync.Tracer.Instrument.{Ins, Knobs, Values}
use mmt_sync.Tracer.Modes.{Mode, shows}
use mmt_sync.Tracer.Waits.{mode_pragma}
use mmt_sync.Tracer.Run.{
  Event, executes, locks, unlocks, tries_lock, leaves_barrier, exits, finishes,
}

-- What an instruction does to the mode: the calls of a pragma's function, of which every second
-- turns printing on again, and its argument.
abbrev pub mode_ins : Knobs → Mode → Ins → Values → Mode
mode_ins knobs m i v =
    if i.shared_lib && not knobs.include_shared
    then m
    else if not i.shared_lib && i.in_pragma_function
    then m
    else if not i.shared_lib && i.calls_pragma_function
    then (if m.opened && (m.depth == 0) then record m { off = not m.off } else m)
    else if not i.shared_lib && i.loads_pragma
    then mode_pragma m v.argument
    else m

-- The pc of an instruction that is to be in the file.
abbrev pub shown_ins : Knobs → Mode → Ins → Values → List ℕ
shown_ins knobs m i v =
    if i.shared_lib && not knobs.include_shared
    then []
    else if not i.shared_lib && i.in_pragma_function
    then []
    else if not i.shared_lib && i.calls_pragma_function
    then []
    else if not i.shared_lib && i.loads_pragma
    then []
    else if shows m
    then v.pc ∷ []
    else []

abbrev pub deeper : Mode → Mode
deeper m = record m { depth = (m.depth + 1) % 256 }

abbrev pub shallower : Mode → Mode
shallower m = record m { depth = (m.depth + 255) % 256 }

abbrev pub shut : Mode → Mode
shut m = record m { opened = false }

abbrev pub mode_event : Knobs → Mode → Event → Mode
mode_event knobs m (executes i v) = mode_ins knobs m i v
mode_event knobs m locks = deeper m
mode_event knobs m unlocks = shallower m
mode_event knobs m (tries_lock ret) = if ret == 0 then deeper m else m
mode_event knobs m leaves_barrier = shallower m
mode_event knobs m exits = shut m
mode_event knobs m finishes = shut m

abbrev pub shown_event : Knobs → Mode → Event → List ℕ
shown_event knobs m (executes i v) = shown_ins knobs m i v
shown_event knobs m _ = []

-- The pcs of the instructions that are executed while the tool is to print.
unfoldable pub shown_all : Knobs → Mode → List Event → List ℕ
shown_all knobs m [] = []
shown_all knobs m (e ∷ es) = shown_event knobs m e ++ shown_all knobs (mode_event knobs m e) es
