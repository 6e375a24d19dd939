-- ===== src/QueueChat/ClientSide/Talk.antt =====
-- A line that is typed, on its way to the others; and the end of a client.
use eltex_school.Base.{
  ℕ, ◌≡◌, ◌<◌, refl, ◌∙◌, ap, subst, sym, false, Option, some, List, [], ◌∷◌, ◌++◌, arith, length,
  set, leb, length-append,
}
use eltex_school.Base.Int.{pos}
use eltex_school.Text.{Text, codes, show_int, show_nat}
use eltex_school.Chat.Input.{typing, entered, edit, AllPrintable, IsLine, EditIsLine, edit-IsLine}
use eltex_school.QueueChat.{
  Server, Sent, unlinked, Junk, handle, send_to_all, find_client_by_id, message_from, quit_at,
}
use eltex_school.QueueChat.Delivery.{Delivered, send_to_all-Delivered}
use eltex_school.QueueChat.Roster.{at}
use eltex_school.QueueChat.ClientSide.{
  Session, Sizes, Done, message, local_message, add_message, send_line, send_round, finish_line,
  max_msg_size, cleanup, quit_message,
}
use eltex_school.Text.Tokens.{Lacks, Lacks-append}
use eltex_school.QueueChat.ClientSide.Fields.{
  is_newline, handle_body, show_nat-Lacks, length-show_nat, dispatch-message, dispatch-quit,
}

AllPrintable-Lacks : (t : Text) → AllPrintable t → Lacks is_newline t
AllPrintable-Lacks [] h = tt
AllPrintable-Lacks (c ∷ t) h = (ground (arith, h.0), AllPrintable-Lacks t h.1)

-- What the server makes of a message that fits.
handle-message :
    (opened : Option ℕ) (j : Junk) (s : Server) (n slot k : ℕ) (input name : Text)
    → Lacks is_newline (k ∷ input)
    → find_client_by_id (pos n) 0 s.clients ≡ some slot
    → (at slot s.clients).name ≡ name
    → length (local_message name (k ∷ input)) < max_msg_size
    → handle opened j (message (pos n) (k ∷ input)) s
      ≡ some (s, send_to_all (local_message name (k ∷ input)) (pos n) false s.clients)
unfolding message local_message message_from show_int
handle-message opened j s n slot k input name plain found named short =
    let temp = codes "[" ++ name ++ codes "] " ++ k ∷ input in
    let body = show_nat n ++ b'|' ∷ k ∷ input in
    let fits : leb max_msg_size (length temp) ≡ false = ground (arith, short) in
    handle_body opened j b'M' (codes "SG") body s (refl, (refl, (refl, tt)))
      (Lacks-append is_newline (show_nat n) (b'|' ∷ k ∷ input) (show_nat-Lacks n) (refl, plain))
      (omega (arith, length-append (show_nat n) (b'|' ∷ k ∷ input))) (omega arith)
    ∙ dispatch-message opened j (pos n) k input s plain
    ∙ rw (found, message_from, named, fits) refl

empty-IsLine : IsLine []
empty-IsLine = record { fits = omega arith; printable = tt }

send_round_line :
    (w : Sizes) (keys : List (Option ℕ)) (c : Session) (k : ℕ) (input : Text)
    → edit keys (typing []) ≡ entered (k ∷ input)
    → length (message c.client_id (k ∷ input)) < max_msg_size
    → length (local_message c.name (k ∷ input)) < max_msg_size
    → let r = add_message w (local_message c.name (k ∷ input)) c in
      send_round w keys c
      ≡ some (record {
        session = r.0;
        posted = message c.client_id (k ∷ input) ∷ [];
        shown = r.1 ∷ [];
      })
unfolding send_round send_line
send_round_line w keys c k input e short short' =
    let fits : leb max_msg_size (length (message c.client_id (k ∷ input))) ≡ false =
      ground (arith, short) in
    let fits' : leb max_msg_size (length (local_message c.name (k ∷ input))) ≡ false =
      ground (arith, short') in
    ap (λ l. finish_line w l c) e ∙ rw (fits, fits') refl

-- Whatever keys are pressed for a line that is entered and is not empty: if the line fits the
-- buffers with the number and the name in front of it, the client sends one message, and the server,
-- where the client with this number has this name, sends one text and nothing else: to the queues of
-- the active clients that have another number, and to no other queue. It is the text that the client
-- shows to its own user, cut to the width of the window.
pub line_heard :
    (w : Sizes) (keys : List (Option ℕ)) (c : Session) (k n slot : ℕ) (input : Text)
    (opened : Option ℕ) (j : Junk) (s : Server)
    → edit keys (typing []) ≡ entered (k ∷ input)
    → c.client_id ≡ pos n
    → find_client_by_id (pos n) 0 s.clients ≡ some slot
    → (at slot s.clients).name ≡ c.name
    → length (message (pos n) (k ∷ input)) < max_msg_size
    → length (local_message c.name (k ∷ input)) < max_msg_size
    → let text = local_message c.name (k ∷ input) in
      (d : Done) × (send_round w keys c ≡ some d)
      × (d.shown ≡ (add_message w text c).1 ∷ [])
      × ((m : Text) × (d.posted ≡ m ∷ [])
          × ((told : List Sent) × (handle opened j m s ≡ some (s, told))
              × Delivered text (pos n) s.clients told))
line_heard w keys c k n slot input opened j s e numbered found named short short' =
    let line : IsLine (k ∷ input) =
      subst (λ l. EditIsLine l) e (edit-IsLine keys (typing []) empty-IsLine) in
    let m = message c.client_id (k ∷ input) in
    let sent =
      send_round_line w keys c k input e
        (subst (λ z. length (message z (k ∷ input)) < max_msg_size) (sym numbered) short) short' in
    (
      _,
      sent,
      refl,
      (
        m,
        refl,
        (
          send_to_all (local_message c.name (k ∷ input)) (pos n) false s.clients,
          subst
              (λ z.
                handle opened j (message z (k ∷ input)) s
                ≡ some (s, send_to_all (local_message c.name (k ∷ input)) (pos n) false s.clients))
              (sym numbered)
              (handle-message opened j s n slot k input c.name
                (AllPrintable-Lacks (k ∷ input) line.printable) found named short'),
          send_to_all-Delivered (local_message c.name (k ∷ input)) (pos n) s.clients,
        ),
      ),
    )

-- What a client with a number sends when it ends makes the server free its slot: the client there
-- is not active any more, its queue is removed first, and the other slots stay as they are.
pub quit_heard :
    (c : Session) (n slot : ℕ) (opened : Option ℕ) (j : Junk) (s : Server)
    → c.client_id ≡ pos n
    → find_client_by_id (pos n) 0 s.clients ≡ some slot
    → (m : Text) × ((cleanup c).posted ≡ m ∷ [])
      × ((told : List Sent) × (handle opened j m s
            ≡ some (
              record s {
                clients = set s.clients slot (record (at slot s.clients) { active = false });
              },
              unlinked (at slot s.clients).queue_name ∷ told,
            )))
unfolding cleanup quit_at show_int
quit_heard c n slot opened j s numbered found = (
  codes "QUIT|" ++ show_int (pos n),
  ap quit_message numbered,
  (
    _,
    handle_body opened j b'Q' (codes "UIT") (show_nat n) s (refl, (refl, (refl, (refl, tt))))
          (show_nat-Lacks n) (length-show_nat n) (omega arith)
        ∙ dispatch-quit opened j (pos n) s
        ∙ ap (quit_at (pos n) s) found,
  ),
)
