-- ===== src/Device/Firmware/Waiting.antt =====
-- m5stack_stickS3/datp/state.py: the command queue as a bounded first-in-first-out queue, and the
-- battery's percentage.
use oi_interface.Base.{
  List, ◌∷◌, ◌≤◌, length, ◌≡◌, ◌++◌, Bool-cases, Bool, if◌then◌else◌, ltb, sym, [], arith, inl, ap,
  inr, refl, true, ◌+◌, append_nil, ◌∙◌, leb, length-append, append_assoc, false, take, take_all,
  take-append,
}
use oi_interface.Device.Firmware.{
  get_queued_commands, set_battery, Command, clamp_percent, DeviceState, queue_command,
  max_queue_size,
}
use oi_interface.Base.Int.{ℤ, pos, ◌≤ℤ◌, ltb_ℤ, negsuc}

-- `queue_command` for each of the commands.
queue_all : List Command → DeviceState → DeviceState
queue_all [] s = s
queue_all (c ∷ cs) s = queue_all cs (queue_command c s).0

queue_command_full :
    (c : Command) (s : DeviceState)
    → leb max_queue_size (length s.command_queue) ≡ true
    → (queue_command c s).0 ≡ s
unfolding queue_command
queue_command_full c s t = rw t refl

queue_command_room :
    (c : Command) (s : DeviceState)
    → leb max_queue_size (length s.command_queue) ≡ false
    → (queue_command c s).0 ≡ record s { command_queue = s.command_queue ++ c ∷ [] }
unfolding queue_command
queue_command_room c s t = rw t refl

-- The commands that `get_queued_commands` gives after any number of calls of `queue_command`, if at
-- most five waited before: those that waited and then the new ones in their order, cut to the first
-- five.
get_queued_commands-queue_all :
    (cs : List Command) (s : DeviceState)
    → length s.command_queue ≤ max_queue_size
    → (get_queued_commands (queue_all cs s)).1 ≡ take max_queue_size (s.command_queue ++ cs)
unfolding queue_all get_queued_commands
get_queued_commands-queue_all [] s h = sym (
    ap (take max_queue_size) (append_nil s.command_queue)
    ∙ take_all max_queue_size s.command_queue h)
get_queued_commands-queue_all (c ∷ cs) s h =
    elim (Bool-cases (leb max_queue_size (length s.command_queue))) [
      | inl t ↦
          ap (λ d. (queue_all cs d).command_queue) (queue_command_full c s t)
          ∙ get_queued_commands-queue_all cs s h
          ∙ take-append max_queue_size s.command_queue cs (ground arith)
          ∙ sym (take-append max_queue_size s.command_queue (c ∷ cs) (ground arith))
      | inr t ↦
          ap (λ d. (queue_all cs d).command_queue) (queue_command_room c s t)
          ∙ get_queued_commands-queue_all cs
              (record s { command_queue = s.command_queue ++ c ∷ [] })
              (ground (arith, length-append s.command_queue (c ∷ [])))
          ∙ ap (take max_queue_size) (append_assoc s.command_queue (c ∷ []) cs)
    ]

-- The percentage of the battery is between 0 and 100 whatever is reported: 0 for a negative
-- number, 100 for one above 100, and else the number reported.
set_battery_lem :
    (percent : ℤ) (charging : Bool) (s : DeviceState)
    → (pos 0 ≤ℤ (set_battery percent charging s).battery_percent)
      × ((set_battery percent charging s).battery_percent ≤ℤ pos 100)
      × ((set_battery percent charging s).battery_percent ≡ (
          if ltb_ℤ percent (pos 0)
          then pos 0
          else if ltb_ℤ (pos 100) percent
          then pos 100
          else percent))
unfolding set_battery clamp_percent
set_battery_lem (pos n) charging s = elim (Bool-cases (ltb (n + 0) 100)) [
  | inl t ↦ elim (Bool-cases (ltb 0 (n + 0))) [
    | inl f ↦ rw (t, f) (ground arith, ground arith, ground arith)
    | inr f ↦ rw (t, f) (ground arith, ground arith, ground arith)
  ]
  | inr t ↦ rw t (ground arith, ground arith, ground arith)
]
set_battery_lem (negsuc n) charging s = ground arith
