-- ===== src/Client/Tests.antt =====
-- The theorems on the client at concrete keys and messages.
use cg2111a_final_project.Base.{true, false}
use cg2111a_final_project.Base.Int.{pos}
use cg2111a_final_project.Client.{Client}
use cg2111a_final_project.Client.Writer.{Input, Local, writer_round}
use cg2111a_final_project.Client.Known.{AllSent, IsCommand, writer_round_known}

abbrev pub driving : Client
driving = record { network_active = true; manual_mode = true; exit_flag = false }

abbrev pub forward_key : Input
forward_key = record { key = b'f'; param0 = 50; param1 = 80; written = pos 10; now = 9; later = 9 }

abbrev pub started : Local
started = record { quitting = false; old = 0 }

writer_round_known_example : AllSent IsCommand (writer_round 1000000 driving forward_key started).2
writer_round_known_example = writer_round_known 1000000 driving forward_key started
