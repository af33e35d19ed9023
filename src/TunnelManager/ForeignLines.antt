-- ===== src/TunnelManager/ForeignLines.antt =====
-- Lines of authorized_keys that a creation was not meant to touch or to write.
use text.Mathlib.TextLemmas.{append_assoc}
use boringproxy.Prelude.{◌≡◌, ap, ◌∙◌, String, Bool, true, some, List, All}
use boringproxy.Prelude.Int.{ℤ, itoa}
use boringproxy.Prelude.Text.{
  ◌⧺◌, split, contains, trim_space, Lacks, Lacks-append, unlines, contains-append,
}
use boringproxy.Prelude.Text.Lines.{lists, lists-tail, lists-split}
use boringproxy.Prelude.Result.{ok}
use boringproxy.Outside.{Outside}
use boringproxy.TunnelManager.Keys.{
  make_ssh_key_pair, tunnel_id, key_options, key_line, add_to_authorized_keys, without_lines,
  remove_from_authorized_keys,
}
use boringproxy.TunnelManager.KeyFile.{
  FileWorks, Free, contains-nil, key_line-Lacks, key_line_ends, unlines-line,
  add_to_authorized_keys_lem, remove_from_authorized_keys_lem, without_lines-unlines,
}

contains-glued :
    (l domain : String) (port : ℤ) (allow : Bool) (pub_key : String)
    → contains (l ⧺ key_line domain port allow pub_key) (tunnel_id domain port) ≡ true
contains-glued l domain port allow pub_key =
    rw (key_line_ends domain port allow pub_key, ← append_assoc l)
      (contains-append (l ⧺ key_options allow port ⧺ " " ⧺ trim_space pub_key ⧺ " ")
        (tunnel_id domain port) "")

-- If the last line of authorized_keys has no line end, a creation writes the tunnel's line behind it,
-- and deleting the tunnel again removes that line whole: what stood there before the creation is
-- lost, whatever it was.
pub remove-add_to_authorized_keys-loses :
    (o p : Outside) (path domain : String) (port : ℤ) (allow : Bool) (ls : List String)
    (l pub_key priv_key : String)
    → FileWorks o
    → FileWorks p
    → make_ssh_key_pair o ≡ ok (pub_key, priv_key)
    → Lacks b'\n' domain
    → Lacks b'\n' (trim_space pub_key)
    → All (Lacks b'\n') ls
    → Lacks b'\n' l
    → Free (tunnel_id domain port) ls
    → remove_from_authorized_keys p path domain port
        (add_to_authorized_keys o domain port allow (some (unlines ls ⧺ l))).0
      ≡ (some (unlines ls), ok tt)
remove-add_to_authorized_keys-loses o p path domain port allow ls l pub_key priv_key f g k d q hs h
      free =
    ap (λ r. remove_from_authorized_keys p path domain port r.0)
      (add_to_authorized_keys_lem o domain port allow (unlines ls ⧺ l) pub_key priv_key f k)
    ∙ remove_from_authorized_keys_lem p path domain port _ g
    ∙ ap (λ s. (some s, ok tt)) lost
  where
    line : String
    line = key_line domain port allow pub_key

    lost : without_lines (tunnel_id domain port) ((unlines ls ⧺ l) ⧺ line ⧺ "\n") ≡ unlines ls
    lost =
        ap (without_lines (tunnel_id domain port))
          (simp (append_assoc, ← unlines-line ls (l ⧺ line)))
        ∙ without_lines-unlines (tunnel_id domain port) ls (l ⧺ line) hs
            (Lacks-append b'\n' l line h (key_line-Lacks domain port allow pub_key d q)) free
            (contains-glued l domain port allow pub_key) (contains-nil domain port)

-- The text of the file before the injected line.
abbrev before : String → String → ℤ → Bool → String → String
before old a port allow pub_key =
    old ⧺ key_options allow port ⧺ " " ⧺ trim_space pub_key ⧺ " " ⧺ "boringproxy-" ⧺ a

injected_text :
    (old a injected b : String) (port : ℤ) (allow : Bool) (pub_key : String)
    → old ⧺ key_line (a ⧺ "\n" ⧺ injected ⧺ "\n" ⧺ b) port allow pub_key ⧺ "\n"
      ≡ before old a port allow pub_key ⧺ "\n" ⧺ injected ⧺ "\n" ⧺ (b ⧺ "-" ⧺ itoa port ⧺ "\n")
unfolding key_line tunnel_id
injected_text old a injected b port allow pub_key = simp append_assoc

-- A domain with line ends in it puts a line of the requester's own into authorized_keys: any text
-- between two line ends of the domain is a line of the file afterwards, without the restrictions
-- that a tunnel's key is written with.
pub add_to_authorized_keys-lists :
    (o : Outside) (a injected b : String) (port : ℤ) (allow : Bool) (old pub_key priv_key : String)
    → FileWorks o
    → make_ssh_key_pair o ≡ ok (pub_key, priv_key)
    → Lacks b'\n' injected
    → (new : String) × (add_to_authorized_keys o
          (a ⧺ "\n" ⧺ injected ⧺ "\n" ⧺ b)
          port
          allow
          (some old)
        ≡ (some new, ok priv_key))
      × (lists injected (split b'\n' new) ≡ true)
add_to_authorized_keys-lists o a injected b port allow old pub_key priv_key f k h = (
  _,
  add_to_authorized_keys_lem o _ port allow old pub_key priv_key f k,
  rw (injected_text old a injected b port allow pub_key) (
      lists-tail injected _
        (lists-split (before old a port allow pub_key) injected (b ⧺ "-" ⧺ itoa port ⧺ "\n") h)),
)
