-- ===== src/Cmd/Config.antt =====
-- cmd/claw64-bridge/main.go: the options, the ports file, the LLM and the serial link that they
-- choose, and the preflight. Texts are lists of bytes.
pub mod Ports
use claw.Prelude.{
  ℕ, ltb, length, Bool, true, false, not, ◌&&◌, ◌||◌, Option, none, some, List, [], ◌∷◌, ◌++◌, ◌==◌,
  if◌then◌else◌, Bytes, codes, is_nil, same_text, trim_space, before, behind, contains_rune, split,
}

-- The options that the modelled code reads.
pub record Cli : Type 0 where
  pub serial_addr : Bytes
  pub serial_port : Bytes
  pub monitor_addr : Bytes
  pub llm : Bytes
  pub model : Bytes
  pub llm_url : Bytes
  pub llm_key : Bytes
  pub spawn_vice : Bool
  pub loader_prg : Bytes

unfoldable pub normalize_cli : Cli → Cli
normalize_cli cli = if is_nil cli.serial_port then cli else record cli { spawn_vice = false }

-- The addresses of the serial port and the monitor.
pub record Addrs : Type 0 where
  pub serial : Bytes
  pub monitor : Bytes

abbrev pub local_host : Bytes
local_host = codes "127.0.0.1:"

abbrev pub default_addrs : Addrs
default_addrs = record {
  serial = local_host ++ codes "25232";
  monitor = local_host ++ codes "6510";
}

-- The two keys of the ports file.
unfoldable pub set_port : Bytes → Bytes → Addrs → Addrs
set_port key value a =
    if same_text key (codes "SERIAL_PORT")
    then if is_nil value then a else record a { serial = local_host ++ value }
    else if same_text key (codes "MONITOR_PORT")
    then if is_nil value then a else record a { monitor = local_host ++ value }
    else a

-- A line of the ports file, cut at its first `=`.
unfoldable pub port_line : Bytes → Addrs → Addrs
port_line text a =
    let line = trim_space text in
    if is_nil line
    then a
    else if not (contains_rune line b'=')
    then a
    else set_port (trim_space (before line b'=')) (trim_space (behind line b'=')) a

-- The scanner stops at a line that, with its newline, is longer than 64 KiB, and its error is not
-- looked at.
abbrev pub max_line : ℕ
max_line = 65536

unfoldable pub port_lines : List Bytes → Addrs → Addrs
port_lines [] a = a
port_lines (l ∷ ls) a =
    let rest = port_lines ls (port_line l a) in if ltb (length l) max_line then rest else a

-- `defaultPortAddrs`, with the file's text, if it can be opened. An empty last line counts for
-- nothing, as do carriage returns at the end of a line.
unfoldable pub default_port_addrs : Option Bytes → Addrs
default_port_addrs none = default_addrs
default_port_addrs (some text) = port_lines (split text b'\n') default_addrs

-- The client and the model, URL and key that it is given.
pub data LlmChoice : Type 0 where
  anthropic : Bytes → Bytes → LlmChoice
  openai : Bytes → Bytes → Bytes → LlmChoice
  unknown_llm : LlmChoice

abbrev pub or_default : Bytes → Bytes → Bytes
or_default text other = if is_nil text then other else text

unfoldable pub new_llm : Cli → LlmChoice
new_llm cfg =
    if same_text cfg.llm (codes "anthropic")
    then anthropic cfg.llm_key cfg.model
    else if same_text cfg.llm (codes "openai")
    then openai (or_default cfg.llm_url (codes "https://api.openai.com/v1/chat/completions"))
        cfg.llm_key (or_default cfg.model (codes "gpt-5.5"))
    else if same_text cfg.llm (codes "ollama")
    then openai (or_default cfg.llm_url (codes "http://localhost:11434/v1/chat/completions")) []
        (or_default cfg.model (codes "llama3"))
    else unknown_llm

-- What `startSerialLink` opens: a device, a listener, or a listener with VICE.
pub data SerialChoice : Type 0 where
  device listener : Bytes → SerialChoice
  with_vice : Bytes → Bytes → SerialChoice

unfoldable pub start_serial_link : Option Bytes → Cli → SerialChoice
start_serial_link ports cfg =
    let addrs = default_port_addrs ports in
    let serial_addr = or_default cfg.serial_addr addrs.serial in
    let monitor_addr = or_default cfg.monitor_addr addrs.monitor in
    if not (is_nil cfg.serial_port)
    then device cfg.serial_port
    else if not cfg.spawn_vice
    then listener serial_addr
    else with_vice serial_addr monitor_addr

unfoldable pub serial_label : Cli → Bytes
serial_label cfg = if is_nil cfg.serial_port then cfg.serial_addr else cfg.serial_port

-- The loader file: one that is there, or a temporary one, by what its three calls give.
pub data Loader : Type 0 where
  given temporary : Bytes → Loader
  no_file : Bool → Loader

-- `no_file removed`: the temporary file could not be made, or was removed again.
unfoldable pub loader_prg_path : Cli → Bool → Option Bytes → Bool → Bool → Loader
loader_prg_path cfg assembled temp written closed =
    if not (is_nil cfg.loader_prg)
    then given cfg.loader_prg
    else if assembled
    then given (codes "cmd/claw64-bridge/claw64.prg")
    else elim temp [
      | none ↦ no_file false
      | some name ↦ if written && closed then temporary name else no_file true
    ]

-- `defaultSymbolPath`, with whether each candidate is there.
unfoldable pub default_symbol_path : Bool → Bool → Bytes
default_symbol_path loader agent =
    if loader
    then codes "c64/loader.sym"
    else if agent
    then codes "c64/agent.sym"
    else codes "c64/loader.sym"

-- What `preflightInfra` meets: the chat's check, the LLM's with whether its error asks for a Codex
-- login, whether it can be prompted for and the answer, the login, and the LLM's second check.
pub record Preflight : Type 0 where
  pub chat_fails : Bool
  pub llm_fails : Bool
  pub auth_required : Bool
  pub can_prompt : Bool
  pub prompt_fails : Bool
  pub confirmed : Bool
  pub auth_fails : Bool
  pub second_fails : Bool

pub data PreflightResult : Type 0 where
  ready : PreflightResult
  chat_error llm_error prompt_error auth_error second_error : PreflightResult

-- The login that may follow the LLM's error.
unfoldable pub offer_login : Preflight → PreflightResult
offer_login p =
    if p.prompt_fails
    then prompt_error
    else if not p.confirmed
    then llm_error
    else if p.auth_fails
    then auth_error
    else if p.second_fails
    then second_error
    else ready

unfoldable pub preflight_infra : Cli → Preflight → PreflightResult
preflight_infra cfg p =
    if p.chat_fails
    then chat_error
    else if not p.llm_fails
    then ready
    else if same_text cfg.llm (codes "openai") && p.auth_required && p.can_prompt
    then offer_login p
    else llm_error
