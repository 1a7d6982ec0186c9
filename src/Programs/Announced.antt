-- ===== src/Programs/Announced.antt =====
-- The messages that Server/main.cpp makes, as the client reads them.
use yserver_core.Common.{
  ℕ, ◌^◌, ◌<◌, ◌≡◌, ap, sym, ◌∙◌, List, [], ◌∷◌, ◌++◌, some, ok, arith, length, append_assoc,
  append-nil, false, ◌≤◌, take_all, subst,
}
use yserver_core.CString.{codes, visible, c_string, NoZero}
use yserver_core.CString.Laws.{visible_lem}
use yserver_core.Packet.{ChatMessage, s_chat, max_chat_size, buf_size}
use yserver_core.Packet.Layout.{chat_message_image, read_header}
use yserver_core.Packet.RoundTrip.{length-chat_message_image}
use yserver_core.Framing.Frames.{IsFrame}
use yserver_core.Session.{Session, Outcome, send_packet}
use yserver_core.Session.Send.{IsIdle, Sent, send_packet-Sent, send_packet_never_closes}
use yserver_core.Client.{client_table, console_message}
use yserver_core.Client.Consoles.{console_message_fits}
use yserver_core.Client.Conversation.{chat_message_image-IsFrame}
use yserver_core.Programs.{Local}
use yserver_core.Programs.Typed.{IsLocal, chat-header}

-- Bytes that are, to the client's loop, one message after the other with these texts.
pub data Announced : List (List ℕ) → List ℕ → Type 0 where
  nothing : Announced [] []
  announced :
      {text frame out : List ℕ} {texts : List (List ℕ)}
      → (m : ChatMessage) → IsFrame client_table frame m
      → c_string m.message ≡ some text
      → Announced texts out
      → Announced (text ∷ texts) (frame ++ out)

pub Announced-append :
    {texts texts' : List (List ℕ)} {out out' : List ℕ}
    → Announced texts out
    → Announced texts' out'
    → Announced (texts ++ texts') (out ++ out')
Announced-append nothing b = b
Announced-append {texts' = texts'} {out' = out'} (announced {frame = frame} {out = out} m f said a)
      b =
    subst (Announced _) (sym (append_assoc frame out out'))
      (announced m f said (Announced-append a b))

-- The text fits in a message.
abbrev pub Fits : List ℕ → Type 0
Fits text = NoZero text × (length text < max_chat_size)

-- A packet that is one message with this text.
pub record IsSaying (text packet : List ℕ) : Type 0 where
  pub message : ChatMessage
  pub rest : List ℕ
  pub frame : IsFrame client_table packet message
  pub said : c_string message.message ≡ some text
  pub reads : read_header packet ≡ some (message.header, rest)
  pub fits : message.header.size ≤ buf_size
  pub whole : length packet ≡ message.header.size

pub says_lem :
    (l : Local) (text : List ℕ)
    → IsLocal l
    → Fits text
    → (m : ChatMessage) × (console_message l.padding l.id l.message s_chat (codes "Server") text
        ≡ ok m)
      × IsSaying text (chat_message_image m)
says_lem l text v fit =
    let same = visible_lem text fit.0 in
    let (m, made, is_message, names, _, said) =
      console_message_fits l.padding l.id l.message v.blank s_chat (codes "Server") text
        (unfold visible in omega arith) (omega (arith, fit.1, ap length same)) in
    (
      m,
      made,
      record {
        message = m;
        rest = m.id ++ m.message;
        frame = chat_message_image-IsFrame m is_message names;
        said = said ∙ ap some same;
        reads = chat-header m is_message;
        fits = omega (arith, names.1);
        whole = omega (arith, names.1, length-chat_message_image m is_message);
      },
    )

pub IsSaying-Announced :
    {text packet : List ℕ} → IsSaying text packet → Announced (text ∷ []) packet
IsSaying-Announced {text} {packet} v =
    subst (Announced (text ∷ [])) (append-nil packet) (announced v.message v.frame v.said nothing)

module _ (last_error : Session → ℕ) (documented : (s : Session) → last_error s < 2 ^ 31) where
  -- A message to one session with nothing waiting.
  pub send_saying :
      {text packet : List ℕ} (s : Session)
      → IsSaying text packet
      → IsIdle s
      → (o : Outcome) × (send_packet last_error (some packet) s ≡ ok o)
        × (o.closes ≡ false)
        × Sent s packet o.session
  send_saying {packet = packet} s v idle =
      let (o, sends, sent) =
        send_packet-Sent last_error packet v.rest v.message.header s idle v.reads v.fits
          (omega (arith, v.whole)) in
      (
        o,
        sends,
        send_packet_never_closes last_error packet s o documented sends,
        subst (λ out. Sent s out o.session)
            (take_all v.message.header.size packet (omega (arith, v.whole))) sent,
      )
