-- ===== src/Lib.antt =====
-- tui-ssh-client: a verification library of the terminal program that keeps a list of servers,
-- opens shells on them in tabs, copies files over SFTP, and shares its list through an encrypted
-- bundle.
--
-- The program's core is one event loop. Update of internal/ui/app.go gets messages one at a time:
-- keys, and what goroutines report. A dial runs off the loop (internal/ssh), and its outcome, the
-- output of a shell, its end, and the timer of a retry come back as messages that carry a
-- generation, the number of the dial they belong to. internal/ui/tabs.go keeps the tabs and the
-- generations, internal/ui/terminal.go lends them emulators, internal/config keeps the files,
-- internal/sftp copies, and internal/sync keeps the encrypted bundle in a file on GitHub, which
-- other machines write too.
--
-- Where each part is:
--
-- - Prelude: names of the libraries passed on, Boolean tests on the native numbers, lists, signed
--   integers, Go's strings as lists of bytes (Text), maps as association lists (Dict), sets and
--   sorting of strings (Words), and slash-separated paths (Path). Case folding is that of ASCII.
-- - Model/Server: internal/model/server.go, a saved entry with its titles, its address and
--   Validate.
-- - Model/Entries: internal/model/server.go, SortEntries, with sort.SliceStable as an insertion.
--   Entries/Order has its less function, Shown the theorem.
-- - Vault/Secrets: internal/vault/vault.go, the Secrets type, with Inject of
--   internal/config/migrate.go.
-- - Ssh/Errors: internal/ssh/errors.go, an error as the chain that errors.Is walks, classify, and
--   the last lines of Dial. Errors/Classify has what classify answers.
-- - Ssh/HostKey: internal/ssh/hostkey.go, the host key callback and trustOnFirstUse. The answer
--   of knownhosts, whether a question is heard, the calls of Accept and Reject, and the error of
--   AppendKnownHost are its inputs. HostKey/Trust has who decides.
-- - Ssh/Session: internal/ssh/session.go, a live shell as the state that its goroutines share:
--   two pumps, the keepalive, and the goroutine that waits for the end. An event is one critical
--   section or one blocking call of one of them, and a run is any interleaving. Session/Ending
--   has the end and its reason, Session/Stream the bytes, Session/Leak what blocks.
-- - Config/Bundle: internal/config/bundle.go, known_hosts and mergeKnownHosts. Bundle/Grown has
--   what a merge adds, LocalWins, Reported and Again what a pull does to it.
-- - Config/Bundle/Apply: internal/config/bundle.go, Bundle, BundleServers and ApplyBundle, a run
--   as the files after each change, over encoding/json. Apply/Sample is an instance of it,
--   Applied has what a pull leaves, Undo and Travels have the theorems.
-- - Config/SshConfig: internal/config/sshconfig.go, ParseSSHConfig on the lines that the scanner
--   gives. SshConfig/Entries and Importable have what it lists.
-- - Config/Store: internal/config/store.go, the list on disk as what reading it back gives, and
--   the key files that exist; each call of os may fail. Store/Kept, Keys and RoundTrip have its
--   theorems.
-- - Config/Writes: what Migrate and ApplyBundle share, a run of writes that stops at the first
--   error.
-- - Config/VaultFile: internal/config/vaultstore.go with Encrypt and Decrypt of
--   internal/vault/vault.go, over age and encoding/json, whose promises are hypotheses;
--   VaultFile/Sample is an instance that keeps them.
-- - Config/Migrate: internal/config/migrate.go, ScanPlaintext and Migrate, a run as the files
--   after each change; a write to a temporary file is part of the rename that follows.
--   Migrate/Find is the scan, Scan has what it finds, Trace and Steps each step, Kept and Gone
--   the theorems.
-- - Sftp/Transfer: internal/sftp/transfer.go, copyCtx as a loop over rounds, each with what the
--   context, the reader and the writer answer. Transfer/Files has Upload and Download, with what
--   both sides answer and what stands at the destination; Counting, Whole and Left have their
--   theorems.
-- - Sftp/Tree: internal/sftp/tree.go, joinRel and Plan, over any browser that answers List, Stat
--   and Join; the error of List or Stat is a result without its text. Tree/Order and Enough have
--   its theorems.
-- - Sftp/RunSet: internal/sftp/tree.go, RunSet on what both sides answer for each item, with what
--   it made and copied at the destination. RunSet/Parents and Whole have its theorems.
-- - Sftp/Remove: internal/sftp/remote.go, Remove and removeTree, over a server that answers
--   Lstat, ReadDir and Remove. Remove/Reach has what is taken away.
-- - Ui/Terminal: internal/ui/terminal.go, the emulators and the pool. An emulator is a third-
--   party object, and stands as the list of what was done to it.
-- - Ui/Backoff, Ui/State, Ui/Tabs: internal/ui/tabs.go, the delays of a retry, the tabs with the
--   part of the root model that they use, and the operations on them. Sessions are numbers, and
--   the list `closed` has those on which Close was called. A pointer to a tab is its place in the
--   strip. Tabs/Tally, Invariant, Find and Preserve have the invariant, Closing and Shown what
--   closing and quitting do.
-- - Ui/Keymap: internal/ui/keymap.go, the table of bindings (Keymap/Defaults), lookups and Apply;
--   Keymap/Lookup has the theorem.
-- - Ui/Sidebar: internal/ui/sidebar.go, itemsFor with its groups and the operations that rebuild
--   the rows; of the list widget the cursor is kept. sort.Slice is an insertion that leaves names
--   equal but for case in place. Sidebar/Shown has what is shown.
-- - Sync/Github: internal/sync/github.go, the client of the Contents API. A reply is an input, as
--   its status and what the body reads as; base64 is left out, since decoding undoes encoding.
-- - Ui/Sync: internal/ui/sync.go and the cases of app.go for it. The registration is a pointer
--   that commands share, so it is a place in a list of shas. Sync/Commands has what runs beside
--   the loop, Handlers the keys and the messages. Sync/World adds the files on GitHub with others
--   who write them, the commands that run and the messages that wait, over a service whose
--   documented behaviour is a hypothesis. Sync/Register is what is promised, with the moves that
--   others and this machine have in it, Labels which event is which move, and Simulates how both
--   states stand to each other; Moves, Handled, Delivered, Sent, Pulled and Executed do the
--   steps, Refines and Private have the theorems.
-- - Ui/Update: internal/ui/app.go, the cases of Update for the messages of sessions, and the key
--   handlers' calls. Update/Invariant, Routing and Unattended have its theorems.
-- - Ui/Sftp: internal/ui/sftp.go and the cases of app.go for it. Sftp/Pane is filePane, with the
--   lines that View draws before their styling; Sftp/State the fields of the root model that the
--   split view uses, and its commands; Handlers, Keys and Pointer the operations behind keys and
--   mouse, Results and Update the messages. A connection and a context are numbers, and what text
--   inputs hold comes with the key. Sftp/World adds the copies that run beside the loop: Change,
--   Routes, Pointed and Messages have what each message does to them, Owned, Single and
--   Superseded the theorems, Pane/Window those of a pane. Sftp/Commands is what planTransfer,
--   runTransfer, planDelete and runDelete of internal/ui/app.go do beside the loop,
--   Commands/Confirmed that a transfer is the one that was confirmed.
-- - Config/Fixture: values that tests share.
-- - Tests beside the modules of Model/Entries, Config, Config/Bundle/Apply, Config/Store,
--   Config/Migrate, Sftp, Sftp/Tree, Sftp/RunSet, Sftp/Remove, Ssh, Ui, Ui/Keymap, Ui/Sidebar,
--   Ui/Sync, Ui/Sftp and Ui/Sftp/Commands: each theorem at a concrete input.
--
-- Fuel and bounds: three loops are on fuel: Itoa in Prelude/Text, whose fuel is the number itself
-- plus one, Plan in Sftp/Tree, whose fuel counts directories and is enough by a theorem for every
-- finite tree, and removeTree in Sftp/Remove, whose fuel is a depth and is enough by a theorem for
-- every tree that is less deep. Loops over input are by recursion on the list of what the other
-- side answers, and a copy that has not ended by then is `waiting`: that it ends is a theorem.
-- Counts, generations and clock readings are natural numbers without a bound; ports and the active
-- tab are signed. strconv.Atoi refuses what 64 bits do not hold.
--
-- Not modelled: rendering, the widgets of Bubble Tea, x/crypto, pkg/sftp, age and the network,
-- which are inputs; ui.json and keys.json, the filter of the sidebar and the drawing of the split
-- view, which are listed in the manifest. Texts that encoding/json writes are taken to be valid
-- UTF-8, since it puts U+FFFD for other bytes; the promise that a text written is read back is that
-- of such texts, and where a key file or a line of known_hosts has other bytes it does not stand.
-- OwnsKey is modelled where filepath.Abs succeeds.
pub mod Prelude
pub mod Model
pub mod Vault
pub mod Ssh
pub mod Config
pub mod Sftp
pub mod Sync
pub mod Ui
