-- ===== src/Lib.antt =====
-- Majmun is a gateway for television playlists and programme guides. It downloads the playlists of
-- a client's providers, applies the rules of the configuration to their channels, merges the
-- channels that are one, and hands out links of its own that carry the address of the stream.
--
-- How a request for a playlist runs, and which module models which part:
--   * Store (internal/listing/m3u8/store/store.go) is filled by the streamer, one channel per track;
--     Channel (store_channel.go) is a channel and the access to its fields. The code shares pointers
--     to channels, so a store here is a memory from references (native numbers) to channels, the list
--     of references in order and the counter of the tvg-ids that it makes up. Common
--     (internal/listing/common.go) hashes them.
--   * Rules (internal/listing/m3u8/rules/channel/processor.go) runs the channel rules: Rules.Config
--     the configuration, Rules.Conditions the conditions, Rules.Fields the actions and the loop.
--   * PlaylistRules (rules/playlist/processor.go) runs the playlist rules over the whole store:
--     Matcher (pattern_matcher.go) finds the groups of duplicates and their priorities, Duplicates
--     (merge_duplicates.go, remove_duplicates.go) merges or removes, Sorting (sort.go) sorts by
--     patterns and by Natural (sort_natural.go).
--   * Processor (internal/listing/m3u8/processor.go) puts the streams of channels of one tvg-id
--     together and sets the links of the result.
--   * Urlgen (internal/urlgen/urlgen.go) makes the links and opens them again.
--
-- A request for a programme guide runs through Guide (internal/listing/xmltv/streamer.go), which reads
-- the guides of all providers, each through a Decoder (internal/listing/streaming.go) that buffers in
-- the background: Guide.Loops is WriteTo and its loops, Guide itself the matching of channels and the
-- filter of programmes.
--
-- A request for a stream runs through Pool (internal/streampool), which starts one segmenter for all
-- clients of a stream: Pool is its state and the operations on it, Pool.Actions the steps of clients
-- and goroutines, whose runs are all the interleavings.
--
-- A download goes through Cache (internal/httpclient), which keeps it on disk: Cache.Reader and
-- Cache.Close are a reader of one entry up to its Close, Cache.Status how fresh an entry is,
-- Cache.Open the reader that a request gets, Cache.Clean the removal of old entries. Cache.Disk is the
-- directory as a map from names to contents, where any call of the operating system may be refused.
--
-- Requests come in through Server (internal/server): Server.Access decides whose link it is,
-- Server.Stream and Server.Proxy serve a stream with their retries and permits, Server.Handlers the
-- rest, and Server.Writer is the answer that is being written.
--
-- A playlist file is read and written by M3u8 (internal/parser/m3u8): M3u8.Decoder and M3u8.Reading are
-- the decoder of a line and of a file, M3u8.Encoder is the encoder, M3u8.Lines is bufio.Scanner. The
-- two regular expressions of the decoder are read by hand, and its lengths are bit patterns of a
-- float64, whose printing and parsing are parameters.
--
-- At the start Config (internal/config) validates the configuration, and App (internal/app) makes a
-- manager of it: App is a client with its providers, App.Manager makes one client after the other, and
-- Settings (internal/app/utils.go) is mergeProxies, which puts together the settings of the server, of a
-- playlist and of a client. Settings.Valid and Config.Rules are the validation of settings and of rules.
--
-- Base is what these share; Samples is the data of the tests, which stand in modules named Tests.
--
-- Text is a list of bytes. Parameters stand for the code of others: regular expressions are a match
-- and a replacement, a template is a partial function, url.Parse a partial function to the parts of a
-- URL that are read, sort.Slice any Sorter that keeps SortContract, the cipher, JSON and base64 a
-- Codec that keeps Contract, which asks of JSON to keep data whose strings are UTF-8 (Urlgen.Utf8) and
-- no other. A map that is only looked up is an association list; the maps over which
-- the code ranges are visited in the order of their entries, which is one of the orders that the code
-- may take. An error is a value of a Result, or stands beside the store where the code leaves a
-- store half changed. The polls of a context are a function from their number to Bool. An int64 is its
-- 64 bits, and a time the nanoseconds since the year 1. What another server answers, what the pool
-- returns for a stream and what a command writes are functions in a record of surroundings, by the
-- arguments that tell the calls apart.
--
-- Fuel: natural_less runs on the length of its first argument, of which every turn of the loop takes
-- a byte. The loops of Guide.Loops over a decoder run on one more than what the decoder has still to
-- give (fuel_for), since every turn takes an item. M3u8.Reading.decode_all stands for a
-- caller that calls Decode a given number of times, or up to its first error. All other loops are
-- structural.
--
-- Not modelled: the decoding of the configuration (so that a field which is always written has no nil
-- in the models), the downloads that fill a store, the text format of guides, the running of commands,
-- the routes of the server, the direct client, logging and metrics. A line of the log, a counter of a
-- metric and a release of a resource leave no trace in the models.
pub mod Base
pub mod Natural
pub mod Urlgen
pub mod Decoder
pub mod Guide
pub mod Pool
pub mod Common
pub mod Samples
pub mod Channel
pub mod Store
pub mod Rules
pub mod Matcher
pub mod Duplicates
pub mod Sorting
pub mod PlaylistRules
pub mod Processor
pub mod M3u8
pub mod Settings
pub mod Config
pub mod App
pub mod Cache
pub mod Server
