-- ===== src/Net/Socket/Laws.antt =====
-- What the operations of a socket leave behind.
use Prim.Native.String.{◌++◌ as append}
use text.Mathlib.TextLemmas.{append-nil, cons-append, nil-append}
use se3313a_lab.Base.{
  String, ℕ, ◌≡◌, refl, ap, ◌∙◌, ◌≢◌, true, false, Option, none, some, [], ◌∷◌, ◌++◌, runtime_error,
  done, thrown, left, size, ok, arith, contains, erase_from, inl, inr, ◌⊎◌, contains-cons,
}
use se3313a_lab.Net.World.{World, update, fd_of, open_at, set_open}
use se3313a_lab.Net.Socket.{
  read_vector, read_string, c_string, drop_chars, write, write_raw, write_string, close, destroy,
}

-- A read that fails or finds the connection shut closes the object, so that the next read and the
-- next write throw.
pub read_then_closed :
    (h : ℕ) (vec text : String) (w : World) (received : Option String) (again : Option String)
    (answer : Option ℕ)
    → (received ≡ none) ⊎ (received ≡ some "")
    → let w' = left (read_vector received h vec w) in
      (open_at w' h ≡ false)
      × (read_vector again h vec w' ≡ thrown (runtime_error "Can not read from closed socket.") w')
      × (write answer h text w' ≡ thrown (runtime_error "Can not write to closed socket.") w')
unfolding read_vector write
read_then_closed h vec text w none again answer e = ground arith
read_then_closed h vec text w (some String.[]) again answer e = ground arith
read_then_closed h vec text w (some (String.◌∷◌ c s)) again answer (inl e) = cc
read_then_closed h vec text w (some (String.◌∷◌ c s)) again answer (inr e) = cc

-- A read of some text from an open socket gives the text and its length, and changes nothing.
pub read_vector_text :
    (text vec : String) (h : ℕ) (w : World)
    → open_at w h ≡ true
    → text ≢ ""
    → read_vector (some text) h vec w ≡ done (some (size text), text) w
unfolding read_vector
read_vector_text String.[] vec h w o n = absurd (n refl)
read_vector_text (String.◌∷◌ d t) vec h w o n = rw (o, read_vector) refl

pub read_vector_failed :
    (vec : String) (h : ℕ) (w : World)
    → open_at w h ≡ true
    → read_vector none h vec w ≡ done (none, vec) (set_open h false w)
unfolding read_vector
read_vector_failed vec h w o = rw (o, read_vector) refl

-- After a read from an open socket finds that the peer has shut the connection, neither `close`
-- nor the destructor gives its descriptor back: the process goes on holding it.
pub shut_descriptor_kept :
    (h : ℕ) (vec : String) (w : World)
    → open_at w h ≡ true
    → w.fds (fd_of w h) ≡ true
    → let w' = left (read_vector (some "") h vec w) in
      ((close h w').fds (fd_of w h) ≡ true) × ((destroy h w').fds (fd_of w h) ≡ true)
unfolding read_vector close destroy
shut_descriptor_kept h vec w e held = ground arith

-- Closing an open socket marks its object as closed and gives its descriptor back, and touches no
-- other object and no other descriptor; closing once more, or destroying the object, changes nothing.
pub close_lem :
    (h : ℕ) (w : World)
    → open_at w h ≡ true
    → ((close h w).heap ≡ update w.heap h (record { fd = fd_of w h; is_open = false }))
      × ((close h w).fds ≡ update w.fds (fd_of w h) false)
      × ((close h w).next ≡ w.next)
      × ((close h w).written ≡ w.written)
      × (close h (close h w) ≡ close h w)
      × (destroy h (close h w) ≡ close h w)
unfolding close destroy
close_lem h w e = (
  rw (e, close) refl,
  rw (e, close) refl,
  rw (e, close) refl,
  rw (e, close) refl,
  ground arith,
  ground arith,
)

-- The first characters of a buffer are kept if there is no NUL among them.
c_string-append :
    (s rest t : String)
    → contains 0 s ≡ false
    → c_string rest ≡ ok t
    → c_string (append s rest) ≡ ok (append s t)
unfolding c_string
c_string-append String.[] rest t h e = rw (nil-append rest, nil-append t) e
c_string-append (String.◌∷◌ c s) rest t h e =
    let (other, free) = contains-cons 0 c s h in
    rw (cons-append c s rest, cons-append c s t) (rw (other, c_string-append s rest t free e) refl)

-- A string read from an open socket of which ::recv gives a text with no NUL in it is that text
-- followed by what the buffer held behind it before, up to the first NUL there, if there is one.
pub read_string_stale :
    (raw str stale : String) (h : ℕ) (w : World) (s : String)
    → open_at w h ≡ true
    → s ≢ ""
    → contains 0 s ≡ false
    → c_string (drop_chars (size s) raw) ≡ ok stale
    → read_string raw (some s) h str w ≡ done (some (size s), append s stale) w
unfolding read_string
read_string_stale raw str stale h w String.[] e n k c = absurd (n refl)
read_string_stale raw str stale h w (String.◌∷◌ d s) e n k c =
    rw (e, read_string) (rw (c_string-append (String.◌∷◌ d s) _ stale k c) refl)

-- A write to an open socket of which the system takes `taken` characters.
pub write_open :
    (text : String) (h taken : ℕ) (w : World)
    → open_at w h ≡ true
    → write (some taken) h text w
      ≡ done
          (some taken)
          (record w { written = w.written ++ (fd_of w h, erase_from taken text) ∷ [] })
unfolding write
write_open text h taken w o = rw (o, write) refl

-- A text that ends with its first NUL is written as the string before that NUL is.
pub write_raw-write_string :
    (answer : Option ℕ) (h : ℕ) (text rest : String) (w : World)
    → contains 0 text ≡ false
    → write_raw answer h (append text (append "\0" rest)) w ≡ write_string answer h text w
unfolding write_raw write_string c_string
write_raw-write_string answer h text rest w k =
    let ends : c_string (append "\0" rest) ≡ ok "" = rw (cons-append "\0" "" rest) refl in
    let found : c_string (append text (append "\0" rest)) ≡ ok text =
      c_string-append text (append "\0" rest) "" k ends ∙ ap ok (append-nil text) in
    rw (found, write_raw) refl
