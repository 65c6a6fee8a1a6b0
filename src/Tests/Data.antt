-- ===== src/Tests/Data.antt =====
-- A relay at rest and an environment that works, for the runs of bridge/relay/relay.go.
use claw.Prelude.{true, false, none, some, [], ◌∷◌}
use claw.Relay.History.{Role, Message}
use claw.Relay.State.{Relay, Env, parsed}

abbrev pub hello : Message
hello = record {
  role = Role.assistant;
  content = b'H' ∷ b'i' ∷ [];
  tool_calls = [];
  tool_call_id = [];
}

abbrev pub works : Env
works = record {
  link = λ n. none;
  complete = λ n msgs. some hello;
  emit = λ text. true;
  unmarshal = λ arguments. parsed arguments;
  queued_waiter = λ r. false;
}

abbrev pub at_rest : Relay
at_rest = record {
  history = [];
  system_prompt = b'S' ∷ [];
  prompt_chunks = [];
  result_chunks = [];
  text_buf = [];
  text_out_queue = [];
  text_in_flight = [];
  tool_in_flight = [];
  waiting_tool = false;
  last_tool_call_id = [];
  last_tool_name = none;
  basic_running = false;
  completion_drain = false;
  text_drain_pending = false;
  next_tx_id = 1;
  rx_last_id = 0;
  rx_last_type = 0;
  pending_acks = [];
  pending_frames = [];
  late_ack_ids = [];
  last_ack_sent_at = none;
  last_c64_frame_at = none;
  now = 10000;
  sent = [];
  emitted = [];
  llm_calls = 0;
}
