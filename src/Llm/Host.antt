-- ===== src/Llm/Host.antt =====
-- What the clients of bridge/llm take from the machine they run on: the environment, the files
-- under the home directory, the clock and HTTP. Errors are their texts.
use claw.Prelude.{ℕ, Bool, true, false, Option, none, some, Bytes}

pub data Result (A : Type 0) : Type 0 where
  ok : A → Result A
  err : Bytes → Result A

infixl 5 ◌>>=◌
abbrev pub ◌>>=◌ : {A B : Type 0} → Result A → (A → Result B) → Result B
ok a >>= f = f a
err e >>= f = err e

-- The files that the clients read or write, below the home directory.
pub data ConfigFile : Type 0 where
  anthropic_token openai_codex_oauth codex_auth : ConfigFile

-- What `os.ReadFile` meets.
pub data File : Type 0 where
  absent : File
  unreadable : Bytes → File
  holds : Bytes → File

pub data Variable : Type 0 where
  anthropic_api_key openai_api_key : Variable

-- `home_error` is the error of `os.UserHomeDir`, if it has one; `path` is what
-- `filepath.Join` makes of the home directory and a file's name; `write_error` is the error of
-- `os.MkdirAll` or `os.WriteFile` on a file, with what that file then is.
pub record Host : Type 0 where
  pub env : Variable → Bytes
  pub home_error : Option Bytes
  pub path : ConfigFile → Bytes
  pub file : ConfigFile → File
  pub write_error : ConfigFile → Option (Bytes × File)
  pub now_ms : ℕ

abbrev pub same_file : ConfigFile → ConfigFile → Bool
same_file anthropic_token anthropic_token = true
same_file openai_codex_oauth openai_codex_oauth = true
same_file codex_auth codex_auth = true
same_file _ _ = false

abbrev pub pick : Bool → File → File → File
pick true a b = a
pick false a b = b

abbrev pub put_file : Host → ConfigFile → File → Host
put_file h path f = record h { file = λ p. pick (same_file path p) f (h.file p) }

abbrev pub if_home : {A : Type 0} → Option Bytes → Result A → Result A
if_home none r = r
if_home (some e) r = err e

-- `os.MkdirAll` and `os.WriteFile`.
abbrev pub write_with : Host → ConfigFile → Bytes → Option (Bytes × File) → Result (Unit {0}) × Host
write_with h path content none = (ok tt, put_file h path (holds content))
write_with h path content (some (e, left)) = (err e, put_file h path left)

unfoldable pub write_file : Host → ConfigFile → Bytes → Result (Unit {0}) × Host
write_file h path content = write_with h path content (h.write_error path)
