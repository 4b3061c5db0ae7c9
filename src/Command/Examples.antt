-- ===== src/Command/Examples.antt =====
-- Runs of the encoding of commands.
use nutdb.Prelude.{◌≡◌, refl, [], ◌∷◌}
use nutdb.Prelude.Io.{ok}
use nutdb.Bytes.{is_utf8, to_le_bytes}
use nutdb.Wal.{Wal, frame, append}
use nutdb.Command.{Command, set, encode, decode, push_bytes}
use nutdb.Command.RoundTrip.{IsText, decode-encode}

-- The key is "é", of two bytes.
abbrev pub set_text : Command
set_text = set (0xC3 ∷ 0xA9 ∷ []) (98 ∷ [])

pub set_text-IsText : IsText set_text
unfolding is_utf8
set_text-IsText = (refl, refl)

abbrev empty_log : Wal
empty_log = record { file = []; synced = 0 }

decode-encode_example : decode (encode set_text) ≡ ok set_text
unfolding append encode push_bytes to_le_bytes
decode-encode_example =
    decode-encode set_text empty_log (record empty_log { file = frame (encode set_text) })
      set_text-IsText refl
