-- ===== src/Examples/Older.antt =====
-- Runs of the older headers of Include.
use yserver_core.Common.{ℕ, refl, [], ◌∷◌, arith, replicate, length-replicate}
use yserver_core.Packet.Layout.{IsChatMessage, chat_message_image}
use yserver_core.Framing.Frames.{IsFrame}
use yserver_core.Handlers.{move, server_table}
use yserver_core.Older.Packets.{ChatMessage, code, c_chat, as_chat_message}
use yserver_core.Older.Compatible.{as_move, older_chat-IsFrame}
use yserver_core.Examples.Data.{header-IsHeader}

abbrev said : ChatMessage
said = record {
  header = record {
    io_type = code c_chat;
    size = 580;
    success = 0;
    io_result_info = replicate 32 0;
    padding = 0 ∷ 0 ∷ 0 ∷ [];
  };
  id = replicate 24 0;
  message = replicate 512 65;
}

said-IsChatMessage : IsChatMessage (as_chat_message said)
said-IsChatMessage = record {
  is_header = header-IsHeader 7 580 (omega arith) (omega arith);
  id_length = refl;
  message_length = length-replicate {A = ℕ} 512 65;
}

older_chat-IsFrame_example :
    IsFrame server_table (chat_message_image (as_chat_message said)) (move (as_move said))
older_chat-IsFrame_example = older_chat-IsFrame said said-IsChatMessage refl refl
