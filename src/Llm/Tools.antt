-- ===== src/Llm/Tools.antt =====
-- bridge/llm/tools.go: the tools that the relay offers.
use claw.Prelude.{List, [], ◌∷◌, Bytes, codes}
use claw.Relay.History.{ToolName, exec, screen, stop, status}

-- The name on the wire.
pub record Property : Type 0 where
  pub name : Bytes
  pub kind : Bytes
  pub description : Bytes

-- `Parameters`; `Properties` is a map, here its one entry for each key.
pub record Parameters : Type 0 where
  pub kind : Bytes
  pub properties : List Property
  pub required : List Bytes

-- `Tool` with its `Function`; `Type` is "function" in all of them.
pub record Tool : Type 0 where
  pub name : ToolName
  pub description : Bytes
  pub parameters : Parameters

abbrev pub no_parameters : Parameters
no_parameters = record { kind = codes "object"; properties = []; required = [] }

abbrev pub basic_exec_tool : Tool
basic_exec_tool = record {
  name = exec;
  description = codes "Send one C64 BASIC input line";
  parameters = record {
    kind = codes "object";
    properties =
        (record {
          name = codes "command";
          kind = codes "string";
          description = codes "Single-line C64 BASIC input payload";
        })
        ∷ [];
    required = codes "command" ∷ [];
  };
}

abbrev pub text_screenshot_tool : Tool
text_screenshot_tool = record {
  name = screen;
  description = codes "Request the current visible C64 text screen";
  parameters = no_parameters;
}

abbrev pub basic_stop_tool : Tool
basic_stop_tool = record {
  name = stop;
  description = codes "Request RUN/STOP for the current C64 BASIC program";
  parameters = no_parameters;
}

abbrev pub basic_status_tool : Tool
basic_status_tool = record {
  name = status;
  description = codes "Request current C64 BASIC execution status";
  parameters = no_parameters;
}
