-- ===== src/Lib.antt =====
-- mdsort moves mail between maildirs by rules. A configuration is parsed into a tree of expressions
-- (expr.h); for each message the tree is evaluated (expr.c), which builds a list of matches
-- (match.c); the strings of these are interpolated (match.c, macro.c), and the actions are executed.
--
-- Base has the shared helpers: Boolean tests on native numbers, lists, byte strings, integers, and
-- tests that are run on every number below a bound. A C string is the list of the bytes before its
-- NUL; a buffer of a fixed size is a bound on a length; a pointer that may be NULL is an Option; an
-- address is a number.
--
-- Util models util.c: pathjoin and pathslice. Decode models decode.c: base64, quoted-printable, and
-- in Decode/Words the encoded words of RFC 2047; Decode/Base64 has the alphabet and an encoder to
-- compare with, Decode/RoundTrip, Decode/Bounds and Decode/Printable the proofs. Macro models
-- macro.c, and Macro/Insert is about macros_insert. DateTime models date-time.c, with strptime,
-- mktime, localtime, strftime and setenv as the record Clock; DateTime/Zone is about time zones.
--
-- Message has the structures of message.c, and its children the operations: Message/Flags (with
-- Message/FlagLaws, Message/FlagTrip and Message/FlagUpdates for the proofs), Message/Search
-- (searchheader, with Message/Search/Sorted), Message/Headers, Message/Parse, Message/Attachments,
-- Message/Body (where messages are kept in a store by address, as attachments are messages of their
-- own), and Message/File.
--
-- Expr models expr.h, expr_alloc and the counters of expr.c, Expr/Setters the setters. Match models
-- the match list of match.c:
-- a match has an address, which is fresh for each allocation, and a list of matches stands for the
-- linked list. Match/Removal, Match/Types and Match/Merge have its lemmas. Interpolate models
-- match_interpolate and what it calls, with the proofs in Interpolate/Plain,
-- Interpolate/Extent and Interpolate/Safe.
--
-- Eval models the evaluation of expr.c. Eval/State has the state that it threads: the match list,
-- the messages, the next address, the commands that were run and the TZ variable; and the record
-- System for regexec(3), exec of util.c, and stat(2). Eval/Combine has the expressions with
-- children, Eval/Leaves and Eval/Effects the others, and Eval/Node the dispatch of expr_eval. A read
-- through a null pointer is an answer of its own, ev_crash. Eval/Growth and its children show what
-- evaluation does
-- to the match list, Eval/Matcher what that means for a negation, Eval/Block is about break and
-- pass, and Eval/Meaning gives a meaning in three-valued logic. Eval/Confined and its children show
-- which matches and commands an expression can lead to, by the types in it, and that interpolation
-- keeps that. Tests runs definitions and
-- instantiates theorems.
--
-- Environment has struct environment. Maildir models maildir.c on a file system: World has the
-- contents of the files by directory and name, and Os the choices of the system by the number of the
-- call: which calls fail, what directories list, what a failed write leaves. Maildir/Calls has the
-- calls with what POSIX says of them, Maildir/Names the names of messages, Maildir/Open and
-- Maildir/Opened the opening, Maildir/Walk the traversal and the closing, and Maildir/Move the
-- operations on messages. A directory descriptor is the path of the directory, and reading through a
-- null pointer is an answer, crashes. Maildir/Files has the lemmas on files, Maildir/Others what is
-- left alone, Maildir/Delivery and Maildir/Rewriting the fate of the message, Maildir/Looks what is
-- written of it, Maildir/Traversal, Maildir/Attempts and Maildir/Stdin the loops, Maildir/Seen the
-- flags in names.
--
-- Exec models matches_exec of match.c and message_get_fd of message.c, with exec of util.c as a
-- parameter that is given the number of calls, the arguments and the input. Exec/Watch is the
-- interface of what may be watched of a message: statements that the operations of Maildir keep.
-- Exec/Steps shows that matches_exec keeps them, Exec/Quiet is about the commands that are started,
-- and Exec/Safe has the two statements of interest;
-- Exec/Reading and Exec/Places are about the inputs of commands and the maildirs, Exec/Code about
-- the answers. Message/Sorting and Message/BodyKeeps have what this needs of messages.
--
-- Main models mdsort.c: Main/Options the arguments, Main/Handle handle_message, Main/Walk the loops
-- of main over the configurations that the parser gives, and Main itself the exit status and what is
-- skipped. Main/Laws has the interface Kept of statements that the loops keep, used in Main/DryRun and
-- Main/Status; Main/Ends is about the fuel that is enough, Main/Commands about config_has_exec, Main/Arguments
-- about the arguments.
--
-- Main/Evaluated has the interface Handling of statements that the handling of a message keeps, used in
-- Main/Delivery for the files and in Main/Pledge for the commands.
--
-- Parse models parse.y. Parse/Lexer is yylex1 on the bytes of the file, with Parse/Lexer/Quoting and
-- Parse/Lexer/Numbers for the proofs. Parse/Syntax has a constructor for each production of the grammar
-- that has code of its own; Parse/Expand, Parse/Conditions, Parse/Actions and Parse/Grammar are that
-- code, as steps on the configurations, the macros and the number of errors. yacc stands between the
-- two: the input of Parse/Grammar is the syntax tree with the number of errors of the lexer and of yacc
-- before each statement. Parse/Expand/Pieces is about the meaning of a string, Parse/Checks,
-- Parse/Accepts, Parse/Blocks and Parse/Configs about what is accepted, and Parse/Delivery about the
-- messages that an accepted configuration handles.
--
-- Program models readenv and main of mdsort.c, with the answers of the system and the reading of the
-- file as parameters; Program/Dry, Program/Paths and Program/Refusing have the proofs.
--
-- Fuel: strflags_loop takes 32 rounds, the bits of an unsigned int. The loop over the parts of a
-- multipart message takes two rounds for each byte and two more, since every second round shortens
-- the text. The nesting of attachments is bounded by the source, at five levels.
-- maildir_walk has two rounds, as there are two directories; walk_messages has the fuel of its caller.
-- The loop of maildir_genname goes on while openat(2) answers EEXIST. `rounds` of Os is how often in a
-- row it does so at most, and behind that the call fails in another way; the run of the source that meets
-- names that are taken for ever has no counterpart. Directories and the standard input are finite lists.
--
-- Not modelled: the tables that yacc makes of the grammar, with its error recovery; the text of dry
-- runs and of messages, with the line numbers of the lexer; pledge(2), memory arenas, the faults that
-- are injected for tests, and the copy of libks.
pub mod Base
pub mod Util
pub mod Decode
pub mod Macro
pub mod DateTime
pub mod Environment
pub mod Message
pub mod Expr
pub mod Match
pub mod Interpolate
pub mod Eval
pub mod Maildir
pub mod Exec
pub mod Main
pub mod Parse
pub mod Program
pub mod Tests
