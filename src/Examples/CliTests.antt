-- ===== src/Examples/CliTests.antt =====
-- The plugin's functions on concrete texts.
use kluster_one.Prelude.{◌≡◌, ◌↔◌, none, Bytes, codes}
use kluster_one.Cli.Payload.{extract_payload}
use kluster_one.Cli.Payload.Panics.{Overlap, extract_payload_panics}

-- The sentinels overlap, in front of the base64 of "hi" and a newline.
abbrev text : Bytes
text = codes "---KO-FILE-BEGIN---KO-FILE-END---aGkK"

extract_payload_panics_example : (extract_payload text ≡ none) ↔ Overlap text
extract_payload_panics_example = extract_payload_panics text
