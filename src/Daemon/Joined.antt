-- ===== src/Daemon/Joined.antt =====
-- What `MachineJoin` does to the daemon's machines.
use embd_project.Prelude.{
  String, ◌≡◌, ◌≢◌, Option, none, some, arith, str_eq, eq_iff, if◌then◌else◌,
}
use embd_project.Prelude.Maps.{lookup-insert}
use embd_project.Errors.{Error, machine_exists}
use embd_project.Router.{new_message_router}
use embd_project.Machine.{Machine, success, fails}
use embd_project.Daemon.{Daemon, lookup_machine, insert_machine, machine_join}

insert_machine_lem :
    (m : Machine) (d : Daemon) (j : String)
    → m.machine_id ≢ ""
    → lookup_machine j (insert_machine m d) ≡ (
        if str_eq m.machine_id j
        then some (record m { msg_router = new_message_router })
        else lookup_machine j d)
unfolding insert_machine lookup_machine
insert_machine_lem m d j n = ground (
  arith,
  n,
  eq_iff m.machine_id "",
  lookup-insert m.machine_id j (record m { msg_router = new_message_router }) d.machines,
)

-- When `MachineJoin` of a machine with an id succeeds, then no machine had this id before, the daemon
-- now has the machine under it, with an empty router, and the other machines are as before.
pub machine_join-success :
    (mkdir : String → Option Error) (m : Machine) (d : Daemon) (j : String)
    → m.machine_id ≢ ""
    → (machine_join mkdir m d).1 ≡ success
    → (lookup_machine m.machine_id d ≡ none)
      × (lookup_machine j (machine_join mkdir m d).0 ≡ (
          if str_eq m.machine_id j
          then some (record m { msg_router = new_message_router })
          else lookup_machine j d))
unfolding machine_join
machine_join-success mkdir m d j n h = (ground arith, ground (arith, insert_machine_lem m d j n))

-- When `MachineJoin` does not succeed, then the daemon is as before.
pub machine_join-failure :
    (mkdir : String → Option Error) (m : Machine) (d : Daemon)
    → (machine_join mkdir m d).1 ≢ success
    → (machine_join mkdir m d).0 ≡ d
unfolding machine_join
machine_join-failure mkdir m d h = ground arith

-- After a machine with an id has joined, another `MachineJoin` under its id fails, whatever machine
-- it brings, and changes nothing.
pub machine_join_twice :
    (mkdir mkdir' : String → Option Error) (m m' : Machine) (d : Daemon)
    → m.machine_id ≢ ""
    → m'.machine_id ≡ m.machine_id
    → (machine_join mkdir m d).1 ≡ success
    → machine_join mkdir' m' (machine_join mkdir m d).0
      ≡ ((machine_join mkdir m d).0, fails (machine_exists m'.machine_id))
machine_join_twice mkdir mkdir' m m' d n same h =
    let there = (machine_join-success mkdir m d m'.machine_id n h).1 in
    unfold machine_join in ground (arith, there, eq_iff m.machine_id m'.machine_id)

-- A machine with no id joins with success, if the directory can be made, and yet the daemon is as
-- before: it does not know the machine.
pub machine_join-no_id :
    (mkdir : String → Option Error) (m : Machine) (d : Daemon)
    → m.machine_id ≡ ""
    → lookup_machine "" d ≡ none
    → mkdir "" ≡ none
    → machine_join mkdir m d ≡ (d, success)
unfolding machine_join insert_machine
machine_join-no_id mkdir m d n f e = ground (arith, eq_iff m.machine_id "")
