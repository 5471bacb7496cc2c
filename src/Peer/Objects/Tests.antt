-- ===== src/Peer/Objects/Tests.antt =====
-- Lists of commands on Peer objects.
use simpwire.Prelude.{arith, refl, List, [], ◌∷◌}
use simpwire.Prelude.{Bool}
use simpwire.PeerPrivate.{set_valid}
use simpwire.Peer.Objects.Values.{Command, execute_all, specify, specify_all, set_copied, copied}
use simpwire.Peer.Objects.Ownership.{view}
use simpwire.Peer.Objects.Filling.{Agrees}
use simpwire.Peer.Objects.Refinement.{execute_all-specify_all}
use simpwire.Peer.Objects.Clean.{Clean, no_objects, no_objects-Valid, execute_all-Clean}

-- Two objects, a copy, a move, an assignment to itself and all destructors.
abbrev some_commands : List Command
some_commands =
    Command.construct 0
    ∷ Command.write 0 (set_valid Bool.true)
    ∷ Command.copy_construct 1 0
    ∷ Command.move_construct 2 0
    ∷ Command.assign 1 1
    ∷ Command.assign 2 1
    ∷ Command.destruct 0
    ∷ Command.destruct 1
    ∷ Command.destruct 2
    ∷ []

execute_all-specify_all_example :
    Agrees (specify_all some_commands (view no_objects)) (execute_all some_commands no_objects)
execute_all-specify_all_example = execute_all-specify_all some_commands no_objects no_objects-Valid

abbrev short_list : List Command
short_list =
    Command.construct 0
    ∷ Command.copy_construct 1 0
    ∷ Command.assign 1 1
    ∷ Command.destruct 0
    ∷ Command.destruct 1
    ∷ []

execute_all-Clean_example : Clean (execute_all short_list no_objects)
unfolding specify_all specify set_copied copied view
execute_all-Clean_example = execute_all-Clean short_list _ refl λ x. ground arith
