-- ===== src/TunnelManager/KeyFile.antt =====
-- What a creation and a deletion do to the lines of authorized_keys.
use text.Mathlib.TextLemmas.{append_assoc, append-nil, cons-append, nil-append}
use boringproxy.Prelude.{
  ◌≡◌, ap, ◌∙◌, String, Bool, true, false, none, some, List, [], ◌∷◌, ◌++◌, All, All-append, arith,
}
use boringproxy.Prelude.Int.{ℤ, itoa, itoa-Lacks}
use boringproxy.Prelude.Text.{
  ◌⧺◌, join, contains, trim_space, Lacks, Lacks-append, unlines, split-unlines, join-unlines,
  contains-append,
}
use boringproxy.Prelude.Result.{ok}
use boringproxy.Outside.{Outside}
use boringproxy.TunnelManager.Keys.{
  make_ssh_key_pair, bind_addr, restrictions, tunnel_id, key_options, key_line,
  add_to_authorized_keys, other_lines, without_lines, remove_from_authorized_keys,
}

-- Every call on the file works, and a write leaves what was written.
pub record FileWorks (o : Outside) : Type 0 where
  pub opens : o.open_file ≡ none
  pub reads : o.read_file ≡ none
  pub truncates : o.truncate_file ≡ none
  pub seeks : o.seek_file ≡ none
  pub writes : (s : String) → o.write_file s ≡ (s, none)

-- No line names the tunnel.
abbrev pub Free : String → List String → Type 0
Free id = All (λ line. contains line id ≡ false)

tunnel_id-Lacks :
    (domain : String) (port : ℤ) → Lacks b'\n' domain → Lacks b'\n' (tunnel_id domain port)
unfolding tunnel_id
tunnel_id-Lacks domain port h = Lacks-append b'\n' "boringproxy-" _ (ground arith) (
    Lacks-append b'\n' domain _ h
      (Lacks-append b'\n' "-" (itoa port) (ground arith) (itoa-Lacks port)))

bind_addr-Lacks : (allow : Bool) → Lacks b'\n' (bind_addr allow)
bind_addr-Lacks true = omega arith
bind_addr-Lacks false = omega arith

key_options-Lacks : (allow : Bool) (port : ℤ) → Lacks b'\n' (key_options allow port)
unfolding key_options
key_options-Lacks allow port = Lacks-append b'\n' restrictions _ (omega arith) (
    Lacks-append b'\n' (bind_addr allow) _ (bind_addr-Lacks allow) (
      Lacks-append b'\n' ":" _ (omega arith)
        (Lacks-append b'\n' (itoa port) "\"" (itoa-Lacks port) (omega arith))))

pub key_line-Lacks :
    (domain : String) (port : ℤ) (allow : Bool) (pub_key : String)
    → Lacks b'\n' domain
    → Lacks b'\n' (trim_space pub_key)
    → Lacks b'\n' (key_line domain port allow pub_key)
unfolding key_line
key_line-Lacks domain port allow pub_key h k =
    Lacks-append b'\n' (key_options allow port) _ (key_options-Lacks allow port) (
      Lacks-append b'\n' " " _ (omega arith) (
        Lacks-append b'\n' (trim_space pub_key) _ k
          (Lacks-append b'\n' " " _ (omega arith) (tunnel_id-Lacks domain port h))))

pub key_line_ends :
    (domain : String) (port : ℤ) (allow : Bool) (pub_key : String)
    → key_line domain port allow pub_key
      ≡ (key_options allow port ⧺ " " ⧺ trim_space pub_key ⧺ " ") ⧺ tunnel_id domain port ⧺ ""
unfolding key_line
key_line_ends domain port allow pub_key = simp (append_assoc, append-nil)

contains-key_line :
    (domain : String) (port : ℤ) (allow : Bool) (pub_key : String)
    → contains (key_line domain port allow pub_key) (tunnel_id domain port) ≡ true
contains-key_line domain port allow pub_key = rw (key_line_ends domain port allow pub_key) (
    contains-append (key_options allow port ⧺ " " ⧺ trim_space pub_key ⧺ " ")
      (tunnel_id domain port) "")

pub contains-nil : (domain : String) (port : ℤ) → contains "" (tunnel_id domain port) ≡ false
unfolding tunnel_id contains
contains-nil domain port = rw cons-append

pub other_lines-Free : (id : String) (ls : List String) → Free id (other_lines id ls)
unfolding other_lines
other_lines-Free id [] = tt
other_lines-Free id (l ∷ ls) = ground (arith, other_lines-Free id ls)

-- One more line at the end of a file whose lines all end.
pub unlines-line : (ls : List String) (l : String) → unlines ls ⧺ l ⧺ "\n" ≡ unlines (ls ++ l ∷ [])
unfolding unlines
unlines-line [] l = simp (nil-append, append-nil)
unlines-line (k ∷ ls) l = simp (append_assoc, ← unlines-line ls l)

-- A creation whose file calls work puts one line at the end of the file and keeps what was there.
pub add_to_authorized_keys_lem :
    (o : Outside) (domain : String) (port : ℤ) (allow : Bool) (old pub_key priv_key : String)
    → FileWorks o
    → make_ssh_key_pair o ≡ ok (pub_key, priv_key)
    → add_to_authorized_keys o domain port allow (some old)
      ≡ (some (old ⧺ key_line domain port allow pub_key ⧺ "\n"), ok priv_key)
unfolding add_to_authorized_keys
add_to_authorized_keys_lem o domain port allow old pub_key priv_key f k =
    simp (f.opens, f.reads, k, f.truncates, f.seeks, f.writes)

-- So does a deletion: it writes back the other lines.
pub remove_from_authorized_keys_lem :
    (o : Outside) (path domain : String) (port : ℤ) (old : String)
    → FileWorks o
    → remove_from_authorized_keys o path domain port (some old)
      ≡ (some (without_lines (tunnel_id domain port) old), ok tt)
unfolding remove_from_authorized_keys
remove_from_authorized_keys_lem o path domain port old f = rw (f.reads, f.writes)

other_lines-unlines :
    (id : String) (ls : List String) (l : String)
    → Free id ls
    → contains l id ≡ true
    → contains "" id ≡ false
    → other_lines id ((ls ++ l ∷ []) ++ "" ∷ []) ≡ ls ++ "" ∷ []
unfolding other_lines
other_lines-unlines id [] l free named blank = rw (named, blank)
other_lines-unlines id (k ∷ ls) l (h, hs) named blank =
    rw (h, other_lines-unlines id ls l hs named blank)

pub without_lines-unlines :
    (id : String) (ls : List String) (l : String)
    → All (Lacks b'\n') ls
    → Lacks b'\n' l
    → Free id ls
    → contains l id ≡ true
    → contains "" id ≡ false
    → without_lines id (unlines (ls ++ l ∷ [])) ≡ unlines ls
unfolding without_lines
without_lines-unlines id ls l hs h free named blank =
    ap (λ parts. join "\n" (other_lines id parts))
      (split-unlines (ls ++ l ∷ []) (All-append (Lacks b'\n') ls (l ∷ []) hs (h, tt)))
    ∙ ap (join "\n") (other_lines-unlines id ls l free named blank)
    ∙ join-unlines ls

-- Creating a tunnel and deleting it again, with file calls that work, brings authorized_keys back
-- to the byte, if each of its lines ended and none named the tunnel before, and neither the domain
-- nor the public key has a line end in it.
pub remove-add_to_authorized_keys :
    (o p : Outside) (path domain : String) (port : ℤ) (allow : Bool) (ls : List String)
    (pub_key priv_key : String)
    → FileWorks o
    → FileWorks p
    → make_ssh_key_pair o ≡ ok (pub_key, priv_key)
    → Lacks b'\n' domain
    → Lacks b'\n' (trim_space pub_key)
    → All (Lacks b'\n') ls
    → Free (tunnel_id domain port) ls
    → remove_from_authorized_keys p path domain port
        (add_to_authorized_keys o domain port allow (some (unlines ls))).0
      ≡ (some (unlines ls), ok tt)
remove-add_to_authorized_keys o p path domain port allow ls pub_key priv_key f g k d q hs free =
    ap (λ r. remove_from_authorized_keys p path domain port r.0)
      (add_to_authorized_keys_lem o domain port allow (unlines ls) pub_key priv_key f k)
    ∙ remove_from_authorized_keys_lem p path domain port _ g
    ∙ ap (λ s. (some s, ok tt)) restored
  where
    line : String
    line = key_line domain port allow pub_key

    restored : without_lines (tunnel_id domain port) (unlines ls ⧺ line ⧺ "\n") ≡ unlines ls
    restored =
        ap (without_lines (tunnel_id domain port)) (unlines-line ls line)
        ∙ without_lines-unlines (tunnel_id domain port) ls line hs
            (key_line-Lacks domain port allow pub_key d q) free
            (contains-key_line domain port allow pub_key) (contains-nil domain port)
