-- ===== src/Lib.antt =====
-- Quietline's web client: a chat with rooms, messages that may be encrypted, and voice calls over
-- a socket. The development is about the TypeScript under frontend/src. The Go server under
-- internal is not modelled, nor is what only draws the interface.
--
-- A client holds an account's session and the list of its rooms. The HTTP client asks the server
-- for pages of messages and sends what the user writes; the socket brings new messages and events.
-- The message hook puts both together into the list that the chat shows; the events of calls go to
-- the call handlers, and all others change presence, typing, unread counts or the caches of
-- queries.
--
-- Base, Js: what the source uses of JavaScript: strings as lists of UTF-16 code units, dates as
-- numbers that may be NaN, maps in the order of insertion, stable sorting, slices, decimal
-- numbers, strings that are trimmed, split and joined, and objects that are spread into others.
--
-- ById: the maps from ids to messages that several parts of the message hook build, in which a
-- test says when a message replaces the one under its id; what such a map holds for each id, and
-- in which order.
--
-- Wire: the data of frontend/src/lib/api.ts, frontend/src/lib/crypto.ts and
-- frontend/src/types/messenger.ts.
--
-- Api: every request of frontend/src/lib/api.ts, one function for each, and what is made of an
-- answer. A URL is a list of what is fixed and of what encodeURIComponent is applied to.
--
-- Rooms: patchRoomActivity of frontend/src/hooks/useRooms.ts, in Activity. Unread, Counting, Bag,
-- Each and Ordered are about it: Events takes it over the events of the socket; Bag forgets the
-- order of the list, as a quotient by permutation; Each says what events leave of a room, and
-- Ordered in which order.
--
-- Routes: paths and routes of frontend/src/types/messenger.ts, and the effects of
-- frontend/src/components/MessengerApp.tsx between the URL and the state, in Paths. Uri has
-- decodeURIComponent; UriRoundTrip, PathRoundTrip and Reload are about them.
--
-- People: the list of members, friends and presence of frontend/src/hooks/useIdentity.ts,
-- frontend/src/hooks/useFriends.ts and frontend/src/components/MessengerApp.tsx, in Members,
-- Friends and Presence; Known is about them.
--
-- View: the list of messages of frontend/src/components/chat/ChatView.tsx. Markdown has
-- parseInlineMarkdown; Scroll, History the scrolled list and the load of older messages; Dividers
-- the dates between messages; Bubbles what single messages show; Jump the scroll to a marked
-- message. Matches, Lossless, Links, Loads, Place, Appended, Animated and Divided are about them.
--
-- Push: the settings for notifications of frontend/src/components/layout/Sidebar.tsx: State,
-- Enable, Disable, and Key for the server's key. The browser is a record of what it answers. Ends
-- is about them.
--
-- Shell: the resized side bar of frontend/src/components/layout/AppShell.tsx and the tabs of a
-- phone.
--
-- Messages: frontend/src/hooks/useMessages.ts. Version and Merge have the lists that are derived
-- from pages and live messages; Paging has loadMoreMessages, exitContextMode and the effects on
-- rooms and linked messages; Decrypting the cached decryption; Attachments the list of
-- attachments; Display the shown list; Sending submitMessage and the answers to the mutations,
-- whose functions are in Transmit. Newest, Pages, Loading, Cached, Secrets, Shown and Sent are
-- about them.
--
-- Realtime: handleRealtimeEvent, handleIncomingData and connectWS of
-- frontend/src/components/MessengerApp.tsx, with the interval that expires typing.
--
-- Session: saving, restoring, refreshing and ending a session, the account's local state and the
-- rooms that it enters and leaves, of frontend/src/components/MessengerApp.tsx, with
-- createRoomMutation of frontend/src/hooks/useRooms.ts. Security has what a user changes of the
-- own account, Direct the rooms of two friends and invited rooms; DirectRooms and Stale are about
-- them.
--
-- Codec: frontend/src/lib/crypto.ts. Base64 has the base64url codec, with the browser's btoa and
-- atob; Cipher encrypts and decodes messages and files, with the Web Crypto calls, the encoding of
-- texts and JSON as the record Platform.
--
-- Calls: the call handlers of frontend/src/components/MessengerApp.tsx: startCall and answerCall
-- in Handlers, handleCallEvent in Events, cleanupCall, declineIncomingCall and the timers in
-- Cleanup, all that can happen as a relation in Steps; Invariant, EventsInvariant,
-- HandlersInvariant, Reachable, Keeps, Connects, Endings, EndsBoth and Late are about them. In
-- Heard one client gets the call events that another has published to its topic, which the server
-- does; Exchange goes through them one by one.
--
-- Examples: the theorems at concrete inputs.
--
-- State is explicit. The state of a hook is a record of its React state and its refs; a handler is
-- a function from records to records, and a handler that waits for a reply is in two parts. What a
-- handler's closure has seen of the React state is an argument of its own, beside the state as it
-- is when the handler runs. What a handler does outside its state (frames, notices, refetches) is
-- a list in the record, or a value that is returned with it.
--
-- Date.parse, random ids, the time, the replies of the server and the payload's decoding are
-- parameters; so is String.prototype.trim, where nothing depends on what it cuts off. Numbers are
-- the native natural numbers; dates are integers or NaN. Three recursions are on fuel. A decimal
-- number is printed with one more step than the number, and its digits are proved to stand for it.
-- The loop of parseInlineMarkdown has one more round than the text has characters, since no match
-- is empty. The frames in which a marked message is looked for are 21, since the source counts 20.
-- The other functions recurse on lists.
--
-- Not modelled: the samples of sound and the audio devices; previews and downloads of attachments;
-- the search filter; the import of invites; QR codes; the compression of avatars; texts of the
-- interface with their translations and dates; what the side bar, the login page and the dialogs
-- draw; and the hooks useSession and useWebSocket, which nothing calls. The browser keeps a path
-- as it is written, which is not so of a room whose id is . or .., since the browser takes these
-- for steps between directories. A request that is made and not waited for, such as the two about
-- a call's end, is in the list of what is done outside, and what it ends in changes nothing but
-- the caches of queries. In the relation of call steps every handler sees the present state, and
-- nothing comes between a handler's two parts.
pub mod Base
pub mod Js
pub mod ById
pub mod Wire
pub mod View
pub mod Api
pub mod People
pub mod Rooms
pub mod Routes
pub mod Codec
pub mod Messages
pub mod Realtime
pub mod Push
pub mod Session
pub mod Calls
pub mod Shell
mod Examples
