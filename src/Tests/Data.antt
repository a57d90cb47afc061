-- ===== src/Tests/Data.antt =====
-- The world that the examples start from.
use burnt.Base.{ℕ, [], ◌∷◌, Bytes, replicate, ◌++◌}
use burnt.Messages.Params.{Params}
use burnt.Messages.ScheduledCall.{ScheduledCall}
use burnt.Messages.MsgAddSchedule.{MsgAddSchedule}
use burnt.Messages.MsgRemoveSchedule.{MsgRemoveSchedule}
use burnt.Schedule.World.{World}
use burnt.Tests.Sample.{sample}
use burnt.Tests.Store.{Entries, set}

abbrev pub a_signer : Bytes
a_signer = replicate 20 7

-- A contract that its signer owns, and one that it does not own.
abbrev pub a_contract : Bytes
a_contract = 1 ∷ replicate 31 9

abbrev pub a_stranger : Bytes
a_stranger = 2 ∷ replicate 31 9

abbrev pub some_params : Params
some_params = record {
  minimum_balance = record { denom = b'u' ∷ []; amount = 100 };
  upper_bound = 1000;
}

abbrev pub world_at : ℕ → Entries → ℕ → World sample
world_at height store balance = record {
  height = height;
  params = some_params;
  store = store;
  chain = balance;
  events = [];
}

-- A call that asks for block 9 next.
abbrev pub next_nine : Bytes
next_nine = 0 ∷ 0 ∷ 0 ∷ 0 ∷ 0 ∷ 0 ∷ 0 ∷ 9 ∷ []

abbrev pub a_due_call : ScheduledCall
a_due_call = record { call_body = next_nine }

abbrev pub an_add : MsgAddSchedule
an_add = record {
  signer = a_signer;
  contract = a_contract;
  call_body = next_nine;
  block_height = 8;
}

abbrev pub a_removal : MsgRemoveSchedule
a_removal = record { signer = a_signer; contract = a_contract }

-- The call is due at block 7 by name.
abbrev pub due_at_seven : Entries
due_at_seven = set [] (2 ∷ (a_signer ++ a_contract)) (0 ∷ 0 ∷ 0 ∷ 0 ∷ 0 ∷ 0 ∷ 0 ∷ 7 ∷ [])
